-- ===== src/Group/Codec.antt =====
-- common/group.c: the payload format, described by `encode`, against building and parsing.
use multi_user_chat.Base.{
  is_empty, ℕ, zero, suc, ◌+◌, ◌≤◌, ◌<◌, ◌≡◌, ◌≢◌, refl, sym, ap, ◌∙◌, List, [], ◌∷◌, ◌++◌, Bytes,
  length, All, All-append, IsCString, get_or-last, last_or, last_or-append, if◌then◌else◌, arith,
  leb, append-nil, append_assoc, length-append,
}
use multi_user_chat.Group.{ok, err_invalid, err_payload, GroupSnapshot}
use multi_user_chat.Group.Payload.{
  GroupFields, group_payload_init, group_payload_add, add_fields, parse_loop, group_payload_parse,
  record_fields, group_payload_build_record, group_payload_build_event, group_payload_build_message,
}

-- The format: each field with a NUL behind it.
unfoldable pub encode : List Bytes → Bytes
encode [] = []
encode (f ∷ fs) = f ++ (0 ∷ encode fs)

pub encode-append : (a b : List Bytes) → encode (a ++ b) ≡ encode a ++ encode b
unfolding encode
encode-append [] b = refl
encode-append (f ∷ fs) b = rw (encode-append fs b) (sym (append_assoc f (0 ∷ encode fs) (encode b)))

length-encode-cons :
    (f : Bytes) (fs : List Bytes) → length (encode (f ∷ fs)) ≡ length f + 1 + length (encode fs)
unfolding encode
length-encode-cons f fs = omega (arith, length-append f (0 ∷ encode fs))

-- A row of additions succeeds exactly if all of it fits, and then appends the encoding.
pub add_fields_lem :
    (p : Bytes) (fs : List Bytes)
    → length p ≤ 1024
    → let (rc, p') = add_fields p fs in
      if leb (length p + length (encode fs)) 1024
      then (rc ≡ ok) × (p' ≡ p ++ encode fs)
      else (rc ≡ err_payload) × (length p' ≤ 1024)
unfolding add_fields group_payload_add encode
add_fields_lem p [] h = ground (arith, append-nil p)
add_fields_lem p (f ∷ fs) h = ground (
  arith,
  add_fields_lem (p ++ (f ++ (0 ∷ []))) fs,
  length-append p (f ++ (0 ∷ [])),
  length-append f (0 ∷ []),
  length-append f (0 ∷ encode fs),
  append_assoc p (f ++ (0 ∷ [])) (encode fs),
  append_assoc f (0 ∷ []) (encode fs),
)

parse_loop-byte :
    (b : ℕ) (rest field : Bytes) (acc : GroupFields)
    → b ≢ 0
    → parse_loop (b ∷ rest) field acc ≡ parse_loop rest (field ++ (b ∷ [])) acc
unfolding parse_loop
parse_loop-byte b rest field acc h = ground arith

parse_loop-nul :
    (rest field : Bytes) (acc : GroupFields)
    → length acc < 128
    → length field < 1024
    → parse_loop (0 ∷ rest) field acc ≡ parse_loop rest [] (acc ++ (field ∷ []))
unfolding parse_loop
parse_loop-nul rest field acc h h' = ground arith

-- The loop gathers the bytes of one field.
parse_loop-field :
    (s rest field : Bytes) (acc : GroupFields)
    → IsCString s
    → parse_loop (s ++ (0 ∷ rest)) field acc ≡ parse_loop (0 ∷ rest) (field ++ s) acc
parse_loop-field [] rest field acc h = rw (append-nil field)
parse_loop-field (b ∷ s) rest field acc h =
    parse_loop-byte b (s ++ (0 ∷ rest)) field acc h.0
    ∙ parse_loop-field s rest (field ++ (b ∷ [])) acc h.1
    ∙ rw (append_assoc field (b ∷ []) s)

parse_loop-encode :
    (fs : List Bytes) (acc : GroupFields)
    → All IsCString fs
    → All (λ f. length f < 1024) fs
    → length acc + length fs ≤ 128
    → parse_loop (encode fs) [] acc ≡ (ok, acc ++ fs)
unfolding encode
parse_loop-encode [] acc c s h = unfold parse_loop in rw (append-nil acc)
parse_loop-encode (f ∷ fs) acc c s h =
    parse_loop-field f (encode fs) [] acc c.0
    ∙ parse_loop-nul (encode fs) f acc (omega arith) s.0
    ∙ parse_loop-encode fs (acc ++ (f ∷ [])) c.1 s.1 (omega (arith, length-append acc (f ∷ [])))
    ∙ rw (append_assoc acc (f ∷ []) fs)

last_or-encode : (fs : List Bytes) → last_or (encode fs) 0 ≡ 0
unfolding encode
last_or-encode [] = refl
last_or-encode (f ∷ fs) = last_or-append f 0 (encode fs) 0 ∙ last_or-encode fs

length-field-lt : (fs : List Bytes) → length (encode fs) ≤ 1024 → All (λ f. length f < 1024) fs
length-field-lt [] h = tt
length-field-lt (f ∷ fs) h = (
  omega (arith, length-encode-cons f fs),
  length-field-lt fs (omega (arith, length-encode-cons f fs)),
)

-- Parsing the encoding of at most 128 strings, where it fits into a packet, gives back these
-- strings.
pub group_payload_parse-encode :
    (fs : List Bytes)
    → All IsCString fs
    → length fs ≤ 128
    → length (encode fs) ≤ 1024
    → group_payload_parse (encode fs) ≡ (ok, fs)
unfolding group_payload_parse
group_payload_parse-encode [] c n s = unfold encode in refl
group_payload_parse-encode (f ∷ fs) c n s = ground (
  arith,
  length-encode-cons f fs,
  get_or-last (encode (f ∷ fs)) 0,
  last_or-encode (f ∷ fs),
  parse_loop-encode (f ∷ fs) [] c (length-field-lt (f ∷ fs) s) (omega arith),
)

parse_loop-nul_ok :
    (rest field : Bytes) (acc out : GroupFields)
    → parse_loop (0 ∷ rest) field acc ≡ (ok, out)
    → (length acc < 128) × (parse_loop rest [] (acc ++ (field ∷ [])) ≡ (ok, out))
unfolding parse_loop
parse_loop-nul_ok rest field acc out h = ground arith

parse_loop-end :
    (field : Bytes) (acc out : GroupFields) → parse_loop [] field acc ≡ (ok, out) → acc ≡ out
unfolding parse_loop
parse_loop-end field acc out h = cc

encode-snoc :
    (acc : GroupFields) (field rest : Bytes)
    → encode (acc ++ (field ∷ [])) ++ rest ≡ encode acc ++ (field ++ (0 ∷ rest))
encode-snoc acc field rest = rw (encode-append acc (field ∷ [])) (
    unfold encode in
    (append_assoc (encode acc) (field ++ (0 ∷ [])) rest
      ∙ ap (λ k. encode acc ++ k) (append_assoc field (0 ∷ []) rest)))

-- What the loop accepts is the encoding of what it returns, if the last byte is NUL.
parse_loop_sound :
    (payload field : Bytes) (acc out : GroupFields)
    → (payload ≡ [] → field ≡ [])
    → last_or payload 0 ≡ 0
    → parse_loop payload field acc ≡ (ok, out)
    → encode acc ++ (field ++ payload) ≡ encode out
parse_loop_sound [] field acc out e l h =
    rw (e refl, append-nil) (ap encode (parse_loop-end field acc out h))
parse_loop_sound (zero ∷ rest) field acc out e l h =
    sym (encode-snoc acc field rest)
    ∙ parse_loop_sound rest [] (acc ++ (field ∷ [])) out (λ _. refl) l
        (parse_loop-nul_ok rest field acc out h).1
parse_loop_sound (suc b ∷ rest) field acc out e l h =
    let step : suc b ≢ 0 = omega arith in
    ap (λ k. encode acc ++ k) (sym (append_assoc field (suc b ∷ []) rest))
    ∙ parse_loop_sound rest (field ++ (suc b ∷ [])) acc out (λ z. absurd (step (rw z at l)))
        (last_or-suc b rest l) (rw (parse_loop-byte (suc b) rest field acc step) at h)
  where
    last_or-suc : (b : ℕ) (rest : Bytes) → last_or rest (suc b) ≡ 0 → last_or rest 0 ≡ 0
    last_or-suc b [] h = refl
    last_or-suc b (x ∷ rest) h = h

parse_loop-fields :
    (payload field : Bytes) (acc out : GroupFields)
    → IsCString field
    → All IsCString acc
    → length acc ≤ 128
    → parse_loop payload field acc ≡ (ok, out)
    → All IsCString out × (length out ≤ 128)
parse_loop-fields [] field acc out f a n h = rw (← parse_loop-end field acc out h) (a, n)
parse_loop-fields (zero ∷ rest) field acc out f a n h =
    let (room, next) = parse_loop-nul_ok rest field acc out h in
    parse_loop-fields rest [] (acc ++ (field ∷ [])) out tt
      (All-append IsCString acc (field ∷ []) a (f, tt))
      (omega (arith, length-append acc (field ∷ []))) next
parse_loop-fields (suc b ∷ rest) field acc out f a n h =
    let step : suc b ≢ 0 = omega arith in
    parse_loop-fields rest (field ++ (suc b ∷ [])) acc out
      (All-append (λ b. b ≢ 0) field (suc b ∷ []) f (step, tt)) a n
      (rw (parse_loop-byte (suc b) rest field acc step) at h)

group_payload_parse-ok :
    (payload : Bytes) (fields : GroupFields)
    → group_payload_parse payload ≡ (ok, fields)
    → (length payload ≤ 1024) × (last_or payload 0 ≡ 0) × (parse_loop payload [] [] ≡ (ok, fields))
unfolding group_payload_parse
group_payload_parse-ok [] fields h = unfold parse_loop in (omega arith, refl, h)
group_payload_parse-ok (b ∷ payload) fields h = ground (arith, get_or-last (b ∷ payload) 0)

-- Whatever `group_payload_parse` accepts is the encoding of the fields that it returns, at most
-- 128 strings; so no two payloads parse to the same fields.
pub group_payload_parse_sound :
    (payload : Bytes) (fields : GroupFields)
    → group_payload_parse payload ≡ (ok, fields)
    → (encode fields ≡ payload)
      × All IsCString fields
      × (length fields ≤ 128)
      × (length payload ≤ 1024)
group_payload_parse_sound payload fields h =
    let (size, end, loop) = group_payload_parse-ok payload fields h in
    let (strings, count) = parse_loop-fields payload [] [] fields tt tt (omega arith) loop in
    (
      sym (unfold encode in parse_loop_sound payload [] [] fields (λ _. refl) end loop),
      strings,
      count,
      size,
    )

-- An event is built exactly if its fields fit into a packet, and then it is their encoding;
-- otherwise the result is GROUP_ERR_PAYLOAD.
pub group_payload_build_event_lem :
    (event : Bytes) (g : GroupSnapshot)
    → let (rc, payload) = group_payload_build_event event g in
      if leb (length (encode (event ∷ record_fields g))) 1024
      then (rc ≡ ok) × (payload ≡ encode (event ∷ record_fields g))
      else rc ≡ err_payload
unfolding group_payload_build_event group_payload_build_record group_payload_add group_payload_init
    encode
group_payload_build_event_lem event g = ground (
  arith,
  add_fields_lem (event ++ (0 ∷ [])) (record_fields g),
  length-append event (0 ∷ []),
  length-append event (0 ∷ encode (record_fields g)),
  append_assoc event (0 ∷ []) (encode (record_fields g)),
)

-- A group message is built exactly if its text is not empty and its fields fit into a packet, and
-- then it is their encoding; an empty text gives GROUP_ERR_INVALID, and fields that do not fit
-- GROUP_ERR_PAYLOAD.
pub group_payload_build_message_lem :
    (g : GroupSnapshot) (text : Bytes)
    → let (rc, payload) = group_payload_build_message g text in
      if is_empty text
      then rc ≡ err_invalid
      else (if leb (length (encode (g.id ∷ g.name ∷ text ∷ []))) 1024
          then (rc ≡ ok) × (payload ≡ encode (g.id ∷ g.name ∷ text ∷ []))
          else rc ≡ err_payload)
unfolding group_payload_build_message group_payload_init
group_payload_build_message_lem g text =
    ground (arith, add_fields_lem [] (g.id ∷ g.name ∷ text ∷ []))
