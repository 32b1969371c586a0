-- ===== src/Limits.antt =====
-- The limits of include/protocol.h.
use multi_user_chat.Base.{ℕ}

abbrev pub username_max_len : ℕ
username_max_len = 32

abbrev pub password_max_len : ℕ
password_max_len = 64

abbrev pub packet_data_max : ℕ
packet_data_max = 1024

abbrev pub group_id_max_len : ℕ
group_id_max_len = 32

abbrev pub group_name_max_len : ℕ
group_name_max_len = 64

abbrev pub group_max_members : ℕ
group_max_members = 64

abbrev pub group_max_groups : ℕ
group_max_groups = 128

abbrev pub group_event_max_changes : ℕ
group_event_max_changes = 64

abbrev pub group_payload_max_fields : ℕ
group_payload_max_fields = 128
