-- ===== src/EventMap/Key.antt =====
-- The string keys that dtype/dtype.go and dtype/dtype1.go name.
use aionet.Common.{Text, ascii}

unfoldable pub error : Text
error = ascii "error"

unfoldable pub activity : Text
activity = ascii "activity"

unfoldable pub result_ch : Text
result_ch = ascii "resultCh"

unfoldable pub multi_ch : Text
multi_ch = ascii "multiCh"

unfoldable pub flag1 : Text
flag1 = ascii "flag1"

unfoldable pub flag2 : Text
flag2 = ascii "flag2"

unfoldable pub aux_flag : Text
aux_flag = ascii "auxFlag"

unfoldable pub code : Text
code = ascii "code"

unfoldable pub status : Text
status = ascii "status"

unfoldable pub desc : Text
desc = ascii "desc"

unfoldable pub ready_ch : Text
ready_ch = ascii "readyCh"

unfoldable pub alt_ch : Text
alt_ch = ascii "altCh"

unfoldable pub byte_num : Text
byte_num = ascii "byteNum"

unfoldable pub data_mark : Text
data_mark = ascii ":data"

unfoldable pub conn : Text
conn = ascii "conn"

unfoldable pub bytes : Text
bytes = ascii "bytes"

unfoldable pub set_deadline : Text
set_deadline = ascii "setDeadline"

unfoldable pub frame : Text
frame = ascii "frame"

unfoldable pub put : Text
put = ascii "Put"

unfoldable pub get : Text
get = ascii "Get"

unfoldable pub get_all : Text
get_all = ascii "GetAll"
