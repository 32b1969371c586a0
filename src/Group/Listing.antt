-- ===== src/Group/Listing.antt =====
-- common/group.c: what `group_store_build_list_payload` tells a user.
use multi_user_chat.Base.{
  ℕ, ◌+◌, ◌≤◌, ◌≡◌, refl, true, List, [], ◌∷◌, ◌++◌, Bytes, length, if◌then◌else◌, arith, leb,
  append-nil, append_assoc, length-append, print_size, length-decimal-le,
}
use multi_user_chat.Group.{ok, err_payload, GroupSnapshot, valid_member_name}
use multi_user_chat.Group.Member.{elem, has_member-eq-elem}
use multi_user_chat.Group.Payload.{
  group_payload_init, group_payload_add, group_payload_build_record, record_fields, add_fields,
}
use multi_user_chat.Group.Codec.{encode, encode-append, add_fields_lem}
use multi_user_chat.Group.Store.{
  GroupStore, count_groups, add_records, group_store_build_list_payload,
}

-- The groups with `u` among their members, in the store's order.
unfoldable pub groups_of : Bytes → List GroupSnapshot → List GroupSnapshot
groups_of u [] = []
groups_of u (g ∷ gs) = let rest = groups_of u gs in if elem u g.members then g ∷ rest else rest

unfoldable pub records : List GroupSnapshot → List Bytes
records [] = []
records (g ∷ gs) = record_fields g ++ records gs

-- The fields of the list: the number of the groups, and their records.
abbrev pub list_fields : Bytes → List GroupSnapshot → List Bytes
list_fields u gs = print_size (length (groups_of u gs)) ∷ records (groups_of u gs)

count_groups_lem :
    (u : Bytes) (gs : List GroupSnapshot)
    → valid_member_name u ≡ true
    → count_groups gs u ≡ length (groups_of u gs)
unfolding count_groups groups_of
count_groups_lem u [] n = refl
count_groups_lem u (g ∷ gs) n = ground (arith, has_member-eq-elem g u, count_groups_lem u gs n)

add_records-cons :
    (u : Bytes) (g : GroupSnapshot) (gs : List GroupSnapshot) (p : Bytes)
    → valid_member_name u ≡ true
    → add_records p (g ∷ gs) u ≡ (
        if elem u g.members
        then (let (rc, p') = add_fields p (record_fields g) in
            elim rc [ ok ↦ add_records p' gs u | error ↦ (error, p') ])
        else add_records p gs u)
unfolding add_records group_payload_build_record
add_records-cons u g gs p n = ground (arith, has_member-eq-elem g u)

add_records_lem :
    (u : Bytes) (gs : List GroupSnapshot) (p : Bytes)
    → valid_member_name u ≡ true
    → length p ≤ 1024
    → let (rc, p') = add_records p gs u in
      if leb (length p + length (encode (records (groups_of u gs)))) 1024
      then (rc ≡ ok) × (p' ≡ p ++ encode (records (groups_of u gs)))
      else rc ≡ err_payload
unfolding groups_of records
add_records_lem u [] p n h = unfold add_records encode in (ground (arith, append-nil p))
add_records_lem u (g ∷ gs) p n h = rw (add_records-cons u g gs p n) (
    ground (
      arith,
      add_fields_lem p (record_fields g) h,
      add_records_lem u gs p n h,
      add_records_lem u gs (p ++ encode (record_fields g)) n,
      length-append p (encode (record_fields g)),
      encode-append (record_fields g) (records (groups_of u gs)),
      length-append (encode (record_fields g)) (encode (records (groups_of u gs))),
      append_assoc p (encode (record_fields g)) (encode (records (groups_of u gs))),
    ))

add_count :
    (n : ℕ) → group_payload_add group_payload_init (print_size n) ≡ (ok, print_size n ++ (0 ∷ []))
unfolding group_payload_add group_payload_init
add_count n = ground (arith, length-decimal-le 20 n)

-- For a valid name, the list for a user is built exactly if it fits into a packet, and then it is
-- the encoding of the number of the user's groups and of one record for each of them, in order.
pub group_store_build_list_payload_lem :
    (store : GroupStore) (u : Bytes)
    → valid_member_name u ≡ true
    → let (rc, payload) = group_store_build_list_payload store u in
      if leb (length (encode (list_fields u store.groups))) 1024
      then (rc ≡ ok) × (payload ≡ encode (list_fields u store.groups))
      else rc ≡ err_payload
unfolding group_store_build_list_payload encode
group_store_build_list_payload_lem store u n =
    let text = print_size (length (groups_of u store.groups)) in
    let rest = encode (records (groups_of u store.groups)) in
    ground (
      arith,
      n,
      count_groups_lem u store.groups n,
      add_count (length (groups_of u store.groups)),
      add_records_lem u store.groups (text ++ (0 ∷ [])) n,
      length-append text (0 ∷ []),
      length-append text (0 ∷ rest),
      append_assoc text (0 ∷ []) rest,
      length-decimal-le 20 (length (groups_of u store.groups)),
    )
