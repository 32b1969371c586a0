-- ===== src/Group/Tests.antt =====
-- Runs of the group operations.
use multi_user_chat.Base.{
  ◌≡◌, refl, true, some, List, [], ◌∷◌, Bytes, bytes, decimal, contains, str_eq, leb, All, take,
  if◌then◌else◌, ◌||◌, arith, length, IsCString, ◌≤◌,
}
use multi_user_chat.Group.{
  ok, err_full, GroupSnapshot, valid_member_name, valid_group_name, add_member, member_index,
  index_from, group_event_created,
}
use multi_user_chat.Group.Payload.{
  group_payload_parse, record_fields, group_payload_build_event, group_payload_build_message,
}
use multi_user_chat.Group.Store.{
  GroupStore, group_store_init, group_store_create, build_group, add_members, link_group,
  group_id_text, group_store_get_snapshot, group_store_remove_member,
  group_store_build_list_payload,
}
use multi_user_chat.Group.Member.{elem, Distinct}
use multi_user_chat.Group.Create.{has_other}
use multi_user_chat.Group.Invariant.{
  IsValid, group_store_init-IsValid, group_store_create-IsValid, group_store_create_lem,
}
use multi_user_chat.Group.Leave.{group_store_remove_member_lem, groups_without, changes_without}
use multi_user_chat.Group.Survivors.{group_store_remove_member-IsValid}
use multi_user_chat.Group.Codec.{
  group_payload_parse-encode, group_payload_parse_sound, group_payload_build_event_lem,
  group_payload_build_message_lem, encode,
}
use multi_user_chat.Group.Listing.{
  group_store_build_list_payload_lem, list_fields, groups_of, records,
}

abbrev ann : Bytes
ann = bytes "ann"

abbrev bob : Bytes
bob = bytes "bob"

abbrev team : GroupSnapshot
team = record { id = bytes "g000001"; name = bytes "team"; creator = ann; members = ann ∷ bob ∷ [] }

-- The store after the first group was made.
abbrev one_group : GroupStore
one_group = (group_store_create true group_store_init ann (bytes "team") (bob ∷ ann ∷ bob ∷ [])).1

unfoldable group_run : Unit {0}
unfolding group_store_create group_store_init decimal valid_member_name contains valid_group_name
    build_group add_member member_index index_from add_members str_eq link_group group_id_text
group_run = tt

create_team :
    group_store_create true group_store_init ann (bytes "team") (bob ∷ ann ∷ bob ∷ [])
    ≡ (ok, record { groups = team ∷ []; next_id = 2; count = 1 }, some team)
unfolding group_run
create_team = refl

one_group-IsValid : IsValid one_group
unfolding group_store_init
one_group-IsValid =
    group_store_create-IsValid true group_store_init ann (bytes "team") (bob ∷ ann ∷ bob ∷ [])
      (omega arith) group_store_init-IsValid

group_store_create-IsValid_example :
    IsValid (group_store_create true one_group bob (bytes "duo") (ann ∷ [])).1
unfolding group_run
group_store_create-IsValid_example =
    group_store_create-IsValid true one_group bob (bytes "duo") (ann ∷ []) (omega arith)
      one_group-IsValid

group_store_create_lem_example :
    (group : GroupSnapshot) × ((group_store_create true group_store_init ann
        (bytes "team")
        (bob ∷ [])).2
      ≡ some group)
    × ((id : Bytes)
        → group_store_get_snapshot
            (group_store_create true group_store_init ann (bytes "team") (bob ∷ [])).1
            id
          ≡ (if str_eq group.id id
              then (ok, some group)
              else group_store_get_snapshot group_store_init id))
    × (group.name ≡ bytes "team")
    × (group.creator ≡ ann)
    × ((v : Bytes) → elem v group.members ≡ (str_eq ann v || elem v (bob ∷ [])))
    × Distinct group.members
    × (has_other ann group.members ≡ true)
unfolding group_run
group_store_create_lem_example =
    group_store_create_lem true group_store_init ann (bytes "team") (bob ∷ []) refl

group_store_remove_member_lem_example :
    let (rc, store', changes) = group_store_remove_member one_group ann 64 in
    (store'.groups ≡ groups_without ann one_group.groups)
    × (store'.count ≡ length store'.groups)
    × (store'.next_id ≡ one_group.next_id)
    × (changes ≡ take 64 (changes_without ann one_group.groups))
    × (rc ≡ (if leb (length (changes_without ann one_group.groups)) 64 then ok else err_full))
unfolding group_run
group_store_remove_member_lem_example =
    group_store_remove_member_lem one_group ann 64 one_group-IsValid refl

group_store_remove_member-IsValid_example : IsValid (group_store_remove_member one_group ann 64).1
group_store_remove_member-IsValid_example =
    group_store_remove_member-IsValid one_group ann 64 one_group-IsValid

abbrev fields : List Bytes
fields = bytes "left" ∷ [] ∷ bytes "2" ∷ []

fields-IsCString : All IsCString fields
fields-IsCString = ground arith

group_payload_parse-encode_example : group_payload_parse (encode fields) ≡ (ok, fields)
unfolding encode
group_payload_parse-encode_example =
    group_payload_parse-encode fields fields-IsCString (omega arith) (omega arith)

group_payload_parse_sound_example :
    (encode fields ≡ encode fields)
    × All IsCString fields
    × (length fields ≤ 128)
    × (length (encode fields) ≤ 1024)
group_payload_parse_sound_example =
    group_payload_parse_sound (encode fields) fields group_payload_parse-encode_example

group_store_build_list_payload_lem_example :
    ((group_store_build_list_payload one_group bob).0 ≡ ok)
    × ((group_store_build_list_payload one_group bob).1 ≡ encode (list_fields bob one_group.groups))
unfolding group_run encode groups_of records group_store_build_list_payload elem
group_store_build_list_payload_lem_example = group_store_build_list_payload_lem one_group bob refl

group_payload_build_event_lem_example :
    ((group_payload_build_event group_event_created team).0 ≡ ok)
    × ((group_payload_build_event group_event_created team).1
        ≡ encode (group_event_created ∷ record_fields team))
unfolding encode group_payload_build_event decimal
group_payload_build_event_lem_example = group_payload_build_event_lem group_event_created team

group_payload_build_message_lem_example :
    ((group_payload_build_message team (bytes "hi")).0 ≡ ok)
    × ((group_payload_build_message team (bytes "hi")).1
        ≡ encode (team.id ∷ team.name ∷ bytes "hi" ∷ []))
unfolding encode
group_payload_build_message_lem_example = group_payload_build_message_lem team (bytes "hi")
