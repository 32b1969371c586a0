-- ===== src/Group/Payload.antt =====
-- common/group.c: payloads, a sequence of fields that each end with a NUL. The buffer is modelled
-- by its bytes in use, so that `payload->length` is the length of the list.
use multi_user_chat.Base.{
  is_empty, ◌+◌, ◌-◌, true, false, List, [], ◌∷◌, ◌++◌, Bytes, length, get_or, ltb, leb, ◌==◌,
  print_size, if◌then◌else◌,
}
use multi_user_chat.Limits.{packet_data_max, group_payload_max_fields}
use multi_user_chat.Group.{GroupResult, ok, err_invalid, err_payload, GroupSnapshot}

abbrev pub GroupPayload : Type 0
GroupPayload = Bytes

abbrev pub GroupFields : Type 0
GroupFields = List Bytes

unfoldable pub group_payload_init : GroupPayload
group_payload_init = []

unfoldable pub group_payload_add : GroupPayload → Bytes → GroupResult × GroupPayload
group_payload_add payload field =
    if ltb packet_data_max (length payload + length field + 1)
    then (err_payload, payload)
    else (ok, payload ++ (field ++ (0 ∷ [])))

-- Additions in a row: the first that fails ends the row with GROUP_ERR_PAYLOAD.
unfoldable pub add_fields : GroupPayload → List Bytes → GroupResult × GroupPayload
add_fields payload [] = (ok, payload)
add_fields payload (field ∷ fields) =
    let (rc, payload') = group_payload_add payload field in
    elim rc [ ok ↦ add_fields payload' fields | _ ↦ (err_payload, payload') ]

-- The loop of `group_payload_parse`: `field` holds the bytes from `start` up to `i`.
unfoldable pub parse_loop : Bytes → Bytes → GroupFields → GroupResult × GroupFields
parse_loop [] field fields = (ok, fields)
parse_loop (b ∷ rest) field fields = elim (b == 0) [
  | false ↦ parse_loop rest (field ++ (b ∷ [])) fields
  | true ↦ elim (leb group_payload_max_fields (length fields)) [
    | true ↦ (err_payload, fields)
    | false ↦ elim (leb packet_data_max (length field)) [
      | true ↦ (err_payload, fields)
      | false ↦ parse_loop rest [] (fields ++ (field ∷ []))
    ]
  ]
]

-- The list is `data[0 .. length)`.
unfoldable pub group_payload_parse : Bytes → GroupResult × GroupFields
group_payload_parse payload =
    if is_empty payload
    then (ok, [])
    else (if ltb packet_data_max (length payload)
        then (err_payload, [])
        else (if get_or payload (length payload - 1) 0 == 0
            then parse_loop payload [] []
            else (err_payload, [])))

-- The fields that stand for one group.
abbrev pub record_fields : GroupSnapshot → List Bytes
record_fields snapshot =
    snapshot.id
    ∷ snapshot.name
    ∷ snapshot.creator
    ∷ print_size (length snapshot.members)
    ∷ snapshot.members

unfoldable pub group_payload_build_record :
    GroupPayload → GroupSnapshot → GroupResult × GroupPayload
group_payload_build_record payload snapshot = add_fields payload (record_fields snapshot)

unfoldable pub group_payload_build_event : Bytes → GroupSnapshot → GroupResult × GroupPayload
group_payload_build_event event snapshot =
    let (rc, payload) = group_payload_add group_payload_init event in
    elim rc [ ok ↦ group_payload_build_record payload snapshot | _ ↦ (err_payload, payload) ]

unfoldable pub group_payload_build_message : GroupSnapshot → Bytes → GroupResult × GroupPayload
group_payload_build_message snapshot text =
    if is_empty text
    then (err_invalid, [])
    else add_fields group_payload_init (snapshot.id ∷ snapshot.name ∷ text ∷ [])
