-- ===== src/Group/Invariant.antt =====
-- common/group.c: the invariant of the store of groups, and `group_store_create` under it.
use multi_user_chat.Base.{
  ℕ, ◌+◌, ◌^◌, ◌≤◌, ◌<◌, ◌≡◌, ◌≢◌, ◌⊎◌, refl, sym, ap, ◌∙◌, Bool, true, false, ◌||◌, Option, none,
  some, List, [], ◌∷◌, map, Bytes, length, All, All-map, str_eq, str_eq_iff, if◌then◌else◌, arith,
  Bool-cases, inl, inr, add_u32, add_size, leb,
}
use multi_user_chat.Group.{
  GroupResult, ok, GroupSnapshot, valid_group_id, valid_group_name, valid_member_name,
}
use multi_user_chat.Group.Member.{elem, IsGroup, Distinct}
use multi_user_chat.Group.Create.{has_other, Built, build_group-Built}
use multi_user_chat.Group.Ids.{group_id_text-injective, group_id_text-valid}
use multi_user_chat.Group.Store.{
  GroupStore, build_group, link_group, group_store_init, group_store_create,
  group_store_get_snapshot, find_group_locked, find_id, is_nil, group_id_text,
}

-- A group in the store: well formed, and never left with no member.
pub record IsLive (g : GroupSnapshot) : Type 0 where
  pub group : IsGroup g
  pub inhabited : is_nil g.members ≡ false

-- The id is the text of a serial number that has been given out.
abbrev pub HasSerial : ℕ → Bytes → Type 0
HasSerial n id = (k : ℕ) × (k < n) × (id ≡ group_id_text k)

abbrev pub ids : List GroupSnapshot → List Bytes
ids gs = map (λ g. g.id) gs

pub record IsValid (store : GroupStore) : Type 0 where
  pub counted : store.count ≡ length store.groups
  pub capacity : store.count ≤ 128
  pub live : All IsLive store.groups
  pub serials : All (HasSerial store.next_id) (ids store.groups)
  pub unique : Distinct (ids store.groups)
  pub no_wrap : store.next_id < 2 ^ 32

pub group_store_init-IsValid : IsValid group_store_init
unfolding group_store_init
group_store_init-IsValid = record {
  counted = refl;
  capacity = omega arith;
  live = tt;
  serials = tt;
  unique = tt;
  no_wrap = omega arith;
}

-- The number that is given out next makes a new id.
fresh_id :
    (n : ℕ) (xs : List Bytes)
    → n < 2 ^ 32
    → All (HasSerial n) xs
    → elem (group_id_text n) xs ≡ false
unfolding elem
fresh_id n [] h s = refl
fresh_id n (x ∷ xs) h ((k, lt, e), s) = elim (Bool-cases (str_eq x (group_id_text n))) [
  | inl same ↦
      let eq : k ≡ n =
        group_id_text-injective k n (omega arith) h
          (sym e ∙ (str_eq_iff x (group_id_text n)).0 same) in
      absurd (omega arith)
  | inr other ↦ rw other (fresh_id n xs h s)
]

-- What a success of `group_store_create` leaves in the store and in `out`.
pub record Created (store : GroupStore) (creator name : Bytes) (members : List Bytes)
    (store' : GroupStore) (out : Option GroupSnapshot) : Type 0 where
  pub group : GroupSnapshot
  pub returned : out ≡ some group
  pub linked : store'.groups ≡ group ∷ store.groups
  pub has_id : group.id ≡ group_id_text store.next_id
  pub built : Built creator name members group
  pub room : store.count < 128
  pub next : store'.next_id ≡ add_u32 store.next_id 1
  pub counted : store'.count ≡ add_size store.count 1

create-ok :
    (allocated : Bool) (store : GroupStore) (creator name : Bytes) (members : List Bytes)
    → (group_store_create allocated store creator name members).0 ≡ ok
    → (valid_member_name creator ≡ true)
      × (valid_group_name name ≡ true)
      × ((build_group creator name members).0 ≡ ok)
      × (store.count < 128)
      × (group_store_create allocated store creator name members
          ≡ link_group store (build_group creator name members).1)
unfolding group_store_create link_group
create-ok allocated store creator name members h = ground arith

Built-with_id :
    {creator name : Bytes} {members : List Bytes} {g : GroupSnapshot} (id : Bytes)
    → Built creator name members g
    → Built creator name members (record g { id = id })
Built-with_id id b = record {
  group = record { named = b.group.named; distinct = b.group.distinct; bounded = b.group.bounded };
  names = b.names;
  has_name = b.has_name;
  has_creator = b.has_creator;
  has = b.has;
  other = b.other;
}

link_group-Created :
    (store : GroupStore) (creator name : Bytes) (members : List Bytes) (g : GroupSnapshot)
    → store.count < 128
    → Built creator name members g
    → let (_, store', out) = link_group store g in Created store creator name members store' out
unfolding link_group
link_group-Created store creator name members g room b = elim (Bool-cases (leb 128 store.count)) [
  | inl full ↦ absurd (ground arith)
  | inr free ↦ rw free (record {
    group = record g { id = group_id_text store.next_id };
    returned = refl;
    linked = refl;
    has_id = refl;
    built = Built-with_id (group_id_text store.next_id) b;
    room = room;
    next = refl;
    counted = refl;
  })
]

pub group_store_create-Created :
    (allocated : Bool) (store : GroupStore) (creator name : Bytes) (members : List Bytes)
    → (group_store_create allocated store creator name members).0 ≡ ok
    → let (_, store', out) = group_store_create allocated store creator name members in
      Created store creator name members store' out
group_store_create-Created allocated store creator name members h =
    let (hc, hn, hb, room, eq) = create-ok allocated store creator name members h in
    rw eq (
      link_group-Created store creator name members (build_group creator name members).1 room
        (build_group-Built creator name members hc hn hb))

has_other-not_nil : (c : Bytes) (ms : List Bytes) → has_other c ms ≡ true → is_nil ms ≡ false
unfolding has_other
has_other-not_nil c [] h = cc
has_other-not_nil c (m ∷ ms) h = refl

Created-IsValid :
    {store store' : GroupStore} {creator name : Bytes} {members : List Bytes}
    {out : Option GroupSnapshot}
    → store.next_id + 1 < 2 ^ 32
    → IsValid store
    → Created store creator name members store' out
    → IsValid store'
Created-IsValid {store} {creator} h v c = record {
  counted = rw (c.linked, c.counted) (omega arith);
  capacity = rw (c.counted) (omega arith);
  live = rw c.linked (
    record {
      group = c.built.group;
      inhabited = has_other-not_nil creator c.group.members c.built.other;
    },
    v.live,
  );
  serials =
      rw (c.linked, c.next)
        (
          (store.next_id, omega arith, c.has_id),
          All-map (λ x s. (s.0, omega arith, s.2)) (ids store.groups) v.serials,
        );
  unique =
      rw (c.linked, c.has_id)
        (fresh_id store.next_id (ids store.groups) v.no_wrap v.serials, v.unique);
  no_wrap = rw c.next (omega arith);
}

pub is_ok-cases : (rc : GroupResult) → (rc ≡ ok) ⊎ (rc ≢ ok)
is_ok-cases ok = inl refl
is_ok-cases _ = inr (λ h. cc)

-- A failed `group_store_create` changes nothing and returns no group.
pub group_store_create-failed :
    (allocated : Bool) (store : GroupStore) (creator name : Bytes) (members : List Bytes)
    → (group_store_create allocated store creator name members).0 ≢ ok
    → let (_, store', out) = group_store_create allocated store creator name members in
      (store' ≡ store) × (out ≡ none)
unfolding group_store_create link_group
group_store_create-failed allocated store creator name members h = ground arith

-- `group_store_create` keeps the invariant of the store on every branch, as long as the 32-bit
-- serial number does not wrap.
pub group_store_create-IsValid :
    (allocated : Bool) (store : GroupStore) (creator name : Bytes) (members : List Bytes)
    → store.next_id + 1 < 2 ^ 32
    → IsValid store
    → IsValid (group_store_create allocated store creator name members).1
group_store_create-IsValid allocated store creator name members h v =
    elim (is_ok-cases (group_store_create allocated store creator name members).0) [
      | inl good ↦
          Created-IsValid h v (group_store_create-Created allocated store creator name members good)
      | inr bad ↦ rw ((group_store_create-failed allocated store creator name members bad).0) v
    ]

-- The lookup after a creation: the new id gives the new group, and every other id what it gave.
get_snapshot-Created :
    {store store' : GroupStore} {creator name : Bytes} {members : List Bytes}
    {out : Option GroupSnapshot} (c : Created store creator name members store' out) (id : Bytes)
    → group_store_get_snapshot store' id
      ≡ (if str_eq c.group.id id then (ok, out) else group_store_get_snapshot store id)
unfolding group_store_get_snapshot find_group_locked find_id
get_snapshot-Created {store} c id =
    rw (c.linked, c.returned)
      (ground (
        arith,
        str_eq_iff c.group.id id,
        c.has_id,
        group_id_text-valid store.next_id,
        ap valid_group_id c.has_id,
      ))

-- A successful `group_store_create` makes one group, found under its id by
-- `group_store_get_snapshot`, which answers as before for every other id; the group has the given
-- name and creator, its members are the creator and the given names and no others, each once, and
-- at least one is not the creator.
pub group_store_create_lem :
    (allocated : Bool) (store : GroupStore) (creator name : Bytes) (members : List Bytes)
    → (group_store_create allocated store creator name members).0 ≡ ok
    → let (_, store', out) = group_store_create allocated store creator name members in
      (group : GroupSnapshot) × (out ≡ some group)
      × ((id : Bytes)
          → group_store_get_snapshot store' id
            ≡ (if str_eq group.id id then (ok, some group) else group_store_get_snapshot store id))
      × (group.name ≡ name)
      × (group.creator ≡ creator)
      × ((v : Bytes) → elem v group.members ≡ (str_eq creator v || elem v members))
      × Distinct group.members
      × (has_other creator group.members ≡ true)
group_store_create_lem allocated store creator name members h =
    let c = group_store_create-Created allocated store creator name members h in
    (
      c.group,
      c.returned,
      (λ id. rw (← c.returned) (get_snapshot-Created c id)),
      c.built.has_name,
      c.built.has_creator,
      c.built.has,
      c.built.group.distinct,
      c.built.other,
    )
