-- ===== src/Server/PortText.antt =====
-- server/server.c: the texts that `parse_port` takes for a port.
use multi_user_chat.Base.{
  is_empty, ℕ, ◌≤◌, ◌<◌, ◌≡◌, ◌∙◌, ◌⊎◌, true, false, none, some, Bytes, bytes, ◌==◌, ◌++◌, strtol,
  Long, read_sign, read_long, skip_spaces, read_digits, skip_spaces_lem, read_digits_lem,
  strtol-spaces, strtol-plus, read_long-some, is_space, IsDigits, decimal_value, min, ◌^◌, ◌-◌, [],
  ◌∷◌, inl, inr, refl, sym, ap, subst, Option-cases, Bool-cases, ==_iff, arith, All, append-nil,
}
use multi_user_chat.Server.Port.{is_port, parse_port, parse_port-IsDigits}

-- A decimal number from 1 to 65535, which may have white space and a plus in front, and nothing
-- behind it.
pub record PortText (text : Bytes) : Type 0 where
  pub spaces : Bytes
  pub sign : Bytes
  pub digits : Bytes
  pub in_order : text ≡ spaces ++ (sign ++ digits)
  pub only_spaces : All (λ c. is_space c ≡ true) spaces
  pub one_sign : (sign ≡ []) ⊎ (sign ≡ bytes "+")
  pub only_digits : IsDigits digits
  pub positive : 0 < decimal_value 0 digits
  pub small : decimal_value 0 digits ≤ 65535

strtol-one_sign :
    (sign digits : Bytes)
    → (sign ≡ []) ⊎ (sign ≡ bytes "+")
    → IsDigits digits
    → 0 < decimal_value 0 digits
    → strtol (sign ++ digits) ≡ strtol digits
strtol-one_sign sign digits (inl e) h pos = ap (λ s. strtol (s ++ digits)) e
strtol-one_sign sign digits (inr e) h pos =
    ap (λ s. strtol (s ++ digits)) e ∙ strtol-plus digits h pos

-- `parse_port` looks only at what `strtol` reads.
parse_port-strtol :
    (text text' : Bytes) (fallback : ℕ)
    → strtol text ≡ strtol text'
    → parse_port (some text) fallback ≡ parse_port (some text') fallback
unfolding parse_port
parse_port-strtol text text' fallback e = rw (parse_port, e) refl

parse_port-PortText :
    (text : Bytes) (fallback : ℕ) (p : PortText text)
    → parse_port (some text) fallback ≡ decimal_value 0 p.digits
parse_port-PortText text fallback p =
    ap (λ t. parse_port (some t) fallback) p.in_order
    ∙ parse_port-strtol _ _ fallback (
        strtol-spaces p.spaces (p.sign ++ p.digits) p.only_spaces
        ∙ strtol-one_sign p.sign p.digits p.one_sign p.only_digits p.positive)
    ∙ parse_port-IsDigits p.digits fallback p.only_digits p.positive p.small

-- What `strtol` reads of a port.
record PortLong (n : Long) : Type 0 where
  pub at_end : n.end ≡ []
  pub not_negative : n.negative ≡ false
  pub positive : 0 < n.magnitude
  pub small : n.magnitude ≤ 65535

is_empty-nil : (s : Bytes) → is_empty s ≡ true → s ≡ []
is_empty-nil [] h = refl
is_empty-nil (b ∷ s) h = absurd (ground arith)

is_port-PortLong : (n : Long) → is_port n ≡ true → PortLong n
is_port-PortLong n h = record {
  at_end = is_empty-nil n.end (ground (arith, h));
  not_negative = ground (arith, h);
  positive = ground (arith, h);
  small = ground (arith, h);
}

-- The whole text behind the sign is the number.
record Digits (cs : Bytes) (n : Long) : Type 0 where
  pub only_digits : IsDigits cs
  pub value : n.magnitude ≡ decimal_value 0 cs

read_digits-Digits :
    (cs : Bytes)
    → let n : Long = record {
      negative = false;
      magnitude = min (read_digits 0 cs).0 (2 ^ 63 - 1);
      end = (read_digits 0 cs).1;
    } in
      PortLong n → Digits cs n
read_digits-Digits cs p =
    let (ds, h, split, value) = read_digits_lem 0 cs in
    let same : cs ≡ ds = split ∙ ap (λ t. ds ++ t) p.at_end ∙ append-nil ds in
    record {
      only_digits = subst IsDigits (sym same) h;
      value = omega (arith, p.small, value, ap (decimal_value 0) same);
    }

no_minus : (cs : Bytes) (n : Long) → read_long true cs ≡ some n → ¬ PortLong n
no_minus cs n e p =
    let minus = ap (λ (m : Long). m.negative) (read_long-some true cs n e) ∙ p.not_negative in
    ground (arith, minus)

read_long-Digits : (cs : Bytes) (n : Long) → read_long false cs ≡ some n → PortLong n → Digits cs n
read_long-Digits cs n e p =
    let same = read_long-some false cs n e in
    subst (Digits cs) same (read_digits-Digits cs (subst PortLong (sym same) p))

-- A text without the white space.
record Signed (cs : Bytes) (n : Long) : Type 0 where
  pub sign : Bytes
  pub digits : Bytes
  pub in_order : cs ≡ sign ++ digits
  pub one_sign : (sign ≡ []) ⊎ (sign ≡ bytes "+")
  pub read : Digits digits n

read_sign-Signed : (cs : Bytes) (n : Long) → read_sign cs ≡ some n → PortLong n → Signed cs n
read_sign-Signed [] n e p = absurd (cc)
read_sign-Signed (c ∷ cs) n e p = elim (Bool-cases (c == 0x2d)) [
  | inl minus ↦ absurd (no_minus cs n (rw minus at e) p)
  | inr other ↦ elim (Bool-cases (c == 0x2b)) [
    | inl plus ↦ record {
      sign = bytes "+";
      digits = cs;
      in_order = ap (λ b. b ∷ cs) ((==_iff c 0x2b).0 plus);
      one_sign = inr refl;
      read = read_long-Digits cs n (rw (other, plus) at e) p;
    }
    | inr digit ↦ record {
      sign = [];
      digits = c ∷ cs;
      in_order = refl;
      one_sign = inl refl;
      read = read_long-Digits (c ∷ cs) n (rw (other, digit) at e) p;
    }
  ]
]

-- A text that is taken for a port, and its number.
accepted :
    (text : Bytes) (n : Long)
    → strtol text ≡ some n
    → is_port n ≡ true
    → (p : PortText text) × (n.magnitude ≡ decimal_value 0 p.digits)
unfolding strtol
accepted text n e port =
    let q = is_port-PortLong n port in
    let (spaces, only_spaces, split) = skip_spaces_lem text in
    let s = read_sign-Signed (skip_spaces text) n e q in
    (
      record {
        spaces = spaces;
        sign = s.sign;
        digits = s.digits;
        in_order = split ∙ ap (λ t. spaces ++ t) s.in_order;
        only_spaces = only_spaces;
        one_sign = s.one_sign;
        only_digits = s.read.only_digits;
        positive = omega (arith, q.positive, s.read.value);
        small = omega (arith, q.small, s.read.value);
      },
      s.read.value,
    )

-- What is not 0 for the fallback 0 would be a port for it as well.
refused : (text : Bytes) → parse_port (some text) 0 ≡ 0 → ¬ PortText text
refused text e p = let value = parse_port-PortText text 0 p in omega (arith, e, value, p.positive)

-- `parse_port` of NULL is the fallback. Of a text that is white space, at most one plus, and
-- digits of a number from 1 to 65535, and nothing else, it is that number; of every other text it
-- is the fallback.
pub parse_port_lem :
    (text : Bytes) (fallback : ℕ)
    → (parse_port none fallback ≡ fallback)
      × (((p : PortText text) × (parse_port (some text) fallback ≡ decimal_value 0 p.digits))
          ⊎ ((¬ PortText text) × (parse_port (some text) fallback ≡ fallback)))
unfolding parse_port
parse_port_lem text fallback = (
  refl,
  elim (Option-cases (strtol text)) [
    | inl e ↦ inr (refused text (rw (parse_port, e) refl), rw (parse_port, e) refl)
    | inr (n, e) ↦ elim (Bool-cases (is_port n)) [
      | inr bad ↦ inr (refused text (rw (parse_port, e, bad) refl), rw (parse_port, e, bad) refl)
      | inl good ↦
          let (p, value) = accepted text n e good in inl (p, rw (parse_port, e, good) value)
    ]
  ],
)
