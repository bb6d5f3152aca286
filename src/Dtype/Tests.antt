-- ===== src/Dtype/Tests.antt =====
-- dtype/const.go, dtype/error.go: the theorems at single states and errors.
use aionet.Common.{ℕ, ◌≡◌, ◌≢◌}
use aionet.Dtype.{activity_string, io_mode_string, serial_type_string, state1_string, state2_string}
use aionet.Dtype.Names.{name_or, activities, io_modes, serial_types, states1, states2, string_names}

abbrev state : ℕ
state = 3

string_names_example :
    (activity_string 3 ≡ name_or "Inactivity" activities 3)
    × (io_mode_string 3 ≡ name_or "INVALID_MODE" io_modes 3)
    × (serial_type_string 3 ≡ name_or "t_invalid" serial_types 3)
    × (state1_string 3 ≡ name_or "error : invalid state" states1 3)
    × (state ≢ 10 → state ≢ 11 → state2_string 3 ≡ name_or "error : invalid state" states2 3)
    × (state2_string 10 ≡ name_or "error : invalid state" states2 11)
    × (state2_string 11 ≡ name_or "error : invalid state" states2 10)
string_names_example = string_names 3
