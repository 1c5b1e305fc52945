-- ===== src/Fix/Tag.antt =====
-- exchangesim/fix/constants.py: the tags that the session layer uses.
use exchange_sim.Prelude.{ℕ}

abbrev pub msg_type : ℕ
msg_type = 35

abbrev pub msg_seq_num : ℕ
msg_seq_num = 34

abbrev pub sender_comp_id : ℕ
sender_comp_id = 49

abbrev pub sending_time : ℕ
sending_time = 52

abbrev pub target_comp_id : ℕ
target_comp_id = 56

abbrev pub poss_dup_flag : ℕ
poss_dup_flag = 43

abbrev pub orig_sending_time : ℕ
orig_sending_time = 122

abbrev pub begin_seq_no : ℕ
begin_seq_no = 7

abbrev pub end_seq_no : ℕ
end_seq_no = 16

abbrev pub new_seq_no : ℕ
new_seq_no = 36

abbrev pub ref_seq_num : ℕ
ref_seq_num = 45

abbrev pub text : ℕ
text = 58

abbrev pub encrypt_method : ℕ
encrypt_method = 98

abbrev pub heart_bt_int : ℕ
heart_bt_int = 108

abbrev pub test_req_id : ℕ
test_req_id = 112

abbrev pub gap_fill_flag : ℕ
gap_fill_flag = 123

abbrev pub reset_seq_num_flag : ℕ
reset_seq_num_flag = 141

abbrev pub ref_tag_id : ℕ
ref_tag_id = 371

abbrev pub ref_msg_type : ℕ
ref_msg_type = 372

abbrev pub session_reject_reason : ℕ
session_reject_reason = 373

abbrev pub appl_ver_id : ℕ
appl_ver_id = 1128

abbrev pub default_appl_ver_id : ℕ
default_appl_ver_id = 1137

abbrev pub next_expected_msg_seq_num : ℕ
next_expected_msg_seq_num = 789

abbrev pub session_status : ℕ
session_status = 1409
