-- ===== src/EventMap/SerialType.antt =====
-- dtype/const.go, the constants of SerialType by their places in the const block.
use aionet.Common.{ℕ}

abbrev pub t_nil : ℕ
t_nil = 0

abbrev pub t_bool : ℕ
t_bool = 1

abbrev pub t_byteslice : ℕ
t_byteslice = 2

abbrev pub t_float32 : ℕ
t_float32 = 3

abbrev pub t_float64 : ℕ
t_float64 = 4

abbrev pub t_int : ℕ
t_int = 5

abbrev pub t_int8 : ℕ
t_int8 = 6

abbrev pub t_int16 : ℕ
t_int16 = 7

abbrev pub t_int32 : ℕ
t_int32 = 8

abbrev pub t_int64 : ℕ
t_int64 = 9

abbrev pub t_list : ℕ
t_list = 10

abbrev pub t_map : ℕ
t_map = 11

abbrev pub t_string : ℕ
t_string = 12

abbrev pub t_time : ℕ
t_time = 13

abbrev pub t_uint : ℕ
t_uint = 14

abbrev pub t_uint8 : ℕ
t_uint8 = 15

abbrev pub t_uint16 : ℕ
t_uint16 = 16

abbrev pub t_uint32 : ℕ
t_uint32 = 17

abbrev pub t_uint64 : ℕ
t_uint64 = 18

abbrev pub t_flag1 : ℕ
t_flag1 = 19

abbrev pub t_flag2 : ℕ
t_flag2 = 20
