-- ===== src/Protocol/Init.antt =====
-- common/protocol.c: the packets that `packet_init` and `packet_set_text` make.
use multi_user_chat.Base.{
  ℕ, zero, suc, ◌+◌, ◌-◌, ◌≤◌, ◌<◌, ◌≡◌, refl, sym, ap, ◌∙◌, Option, none, some, [], ◌∷◌, ◌++◌,
  Bytes, length, take, drop, get_or, replicate, IsCString, c_str, c_str-append, c_str-append_nul,
  arith, zeros, length-append, length-replicate, length-take, drop-length-append,
  take-length-append, take-all, append_assoc,
}
use multi_user_chat.Limits.{username_max_len, packet_data_max}
use multi_user_chat.Protocol.{Packet, fill, copied, copy_fixed_string, packet_init, packet_set_text}

pub length-fill : (n : ℕ) (s : Bytes) → length s ≤ n → length (fill n s) ≡ n
length-fill n s h =
    omega (
      arith,
      length-append s (replicate (n - length s) 0),
      length-replicate {A = ℕ} (n - length s) 0,
    )

pub drop-fill : (n : ℕ) (s : Bytes) → drop (length s) (fill n s) ≡ replicate (n - length s) 0
drop-fill n s = drop-length-append s (replicate (n - length s) 0) (length s) refl

pub take-fill : (n : ℕ) (s : Bytes) → take (length s) (fill n s) ≡ s
take-fill n s = take-length-append s (replicate (n - length s) 0) (length s) refl

-- A string that leaves room for its NUL is read back from its array.
pub c_str-fill : (n : ℕ) (s : Bytes) → length s < n → c_str (fill n s) ≡ c_str s
c_str-fill n s h =
    let e : n - length s ≡ suc (n - length s - 1) = omega arith in
    ap (λ k. c_str (s ++ zeros k)) e ∙ c_str-append_nul s (zeros (n - length s - 1))

pub get_or-zeros : (s : Bytes) (k i : ℕ) → length s ≤ i → get_or (s ++ replicate k 0) i 0 ≡ 0
get_or-zeros [] zero i h = refl
get_or-zeros [] (suc k) zero h = refl
get_or-zeros [] (suc k) (suc i) h = get_or-zeros [] k i (omega arith)
get_or-zeros (b ∷ s) k zero h = absurd (omega arith)
get_or-zeros (b ∷ s) k (suc i) h = get_or-zeros s k i (omega arith)

-- A packet as the program makes it: the arrays have their sizes, both names are terminated, and
-- the buffer is zero behind the bytes in use.
pub record IsPacket (p : Packet) : Type 0 where
  pub small : p.length ≤ 1024
  pub sender_size : length p.sender ≡ 32
  pub receiver_size : length p.receiver ≡ 32
  pub sender_end : get_or p.sender 31 0 ≡ 0
  pub receiver_end : get_or p.receiver 31 0 ≡ 0
  pub used : p.payload ≡ fill packet_data_max (take p.length p.payload)

abbrev pub text_of : Option Bytes → Bytes
text_of none = []
text_of (some s) = s

copy_fixed_string_lem :
    (s : Option Bytes) → copy_fixed_string username_max_len s ≡ fill 32 (take 31 (text_of s))
unfolding copy_fixed_string
copy_fixed_string_lem none = refl
copy_fixed_string_lem (some s) = refl

length-take-le : (n : ℕ) (s : Bytes) → length (take n s) ≤ n
length-take-le n s = omega (arith, length-take n s)

-- The array of a name: its size, its end, and the string that is read back from it.
name_array :
    (s : Option Bytes)
    → let a = copy_fixed_string username_max_len s in
      (length a ≡ 32) × (get_or a 31 0 ≡ 0) × (c_str a ≡ c_str (take 31 (text_of s)))
name_array s =
    let short : length (take 31 (text_of s)) ≤ 31 = length-take-le 31 (text_of s) in
    rw (copy_fixed_string_lem s) (
      length-fill 32 (take 31 (text_of s)) (omega arith),
      get_or-zeros (take 31 (text_of s)) (32 - length (take 31 (text_of s))) 31 short,
      c_str-fill 32 (take 31 (text_of s)) (omega arith),
    )

-- The buffer that is given with `len` bytes has them.
abbrev pub HasBytes : Option Bytes → ℕ → Type 0
HasBytes none len = Unit
HasBytes (some buffer) len = len ≤ length buffer

take-zeros : (k m : ℕ) → k ≤ m → take k (zeros m) ≡ zeros k
take-zeros zero m h = refl
take-zeros (suc k) zero h = absurd (omega arith)
take-zeros (suc k) (suc m) h = ap (λ (r : Bytes). 0 ∷ r) (take-zeros k m (omega arith))

zeros-append : (k m n : ℕ) → k + m ≡ n → zeros k ++ zeros m ≡ zeros n
zeros-append zero m n e = let e' : m ≡ n = omega arith in ap (λ k. zeros k) e'
zeros-append (suc k) m zero e = absurd (omega arith)
zeros-append (suc k) m (suc n) e = ap (λ (r : Bytes). 0 ∷ r) (zeros-append k m n (omega arith))

fill-zeros : (n k : ℕ) → k ≤ n → fill n (zeros k) ≡ zeros n
fill-zeros n k h =
    zeros-append k (n - length (zeros k)) n (omega (arith, length-replicate {A = ℕ} k 0))

take-copied :
    (n : ℕ) (buffer : Option Bytes) (len : ℕ)
    → len ≤ n
    → HasBytes buffer len
    → fill n (copied buffer len) ≡ fill n (take len (fill n (copied buffer len)))
take-copied n none len h b =
    let e : n - 0 ≡ n = omega arith in
    let empty : fill n [] ≡ zeros n = ap (λ k. zeros k) e in
    rw empty (rw (take-zeros len n h) (sym (fill-zeros n len h)))
take-copied n (some buffer) len h b =
    let e : length (take len buffer) ≡ len = omega (arith, length-take len buffer) in
    ap (fill n)
      (sym (take-fill n (take len buffer)) ∙ ap (λ k. take k (fill n (take len buffer))) e)

-- What `packet_init` makes of its arguments.
pub record Initialised (type : ℕ) (sender receiver buffer : Option Bytes) (len : ℕ) (p : Packet)
    : Type 0 where
  pub packet : IsPacket p
  pub has_type : p.type ≡ type
  pub has_length : p.length ≡ len
  pub has_sender : c_str p.sender ≡ c_str (take 31 (text_of sender))
  pub has_receiver : c_str p.receiver ≡ c_str (take 31 (text_of receiver))
  pub has_payload : p.payload ≡ fill packet_data_max (copied buffer len)

pub packet_init-ok :
    (type : ℕ) (sender receiver buffer : Option Bytes) (len : ℕ)
    → len ≤ 1024
    → HasBytes buffer len
    → (p : Packet) × (packet_init type sender receiver buffer len ≡ some p)
      × Initialised type sender receiver buffer len p
unfolding packet_init
packet_init-ok type sender receiver buffer len h b = (
  record {
    type = type;
    length = len;
    sender = copy_fixed_string username_max_len sender;
    receiver = copy_fixed_string username_max_len receiver;
    payload = fill packet_data_max (copied buffer len);
  },
  ground arith,
  record {
    packet = record {
      small = h;
      sender_size = (name_array sender).0;
      receiver_size = (name_array receiver).0;
      sender_end = (name_array sender).1;
      receiver_end = (name_array receiver).1;
      used = take-copied packet_data_max buffer len h b;
    };
    has_type = refl;
    has_length = refl;
    has_sender = (name_array sender).2;
    has_receiver = (name_array receiver).2;
    has_payload = refl;
  },
)

pub packet_init-big :
    (type : ℕ) (sender receiver buffer : Option Bytes) (len : ℕ)
    → 1024 < len
    → packet_init type sender receiver buffer len ≡ none
unfolding packet_init
packet_init-big type sender receiver buffer len h = ground arith

get_or-nul : (s r : Bytes) (i d : ℕ) → i ≡ length s → get_or ((s ++ (0 ∷ [])) ++ r) i d ≡ 0
get_or-nul [] r zero d e = refl
get_or-nul [] r (suc i) d e = absurd (omega arith)
get_or-nul (b ∷ s) r zero d e = absurd (omega arith)
get_or-nul (b ∷ s) r (suc i) d e = get_or-nul s r i d (omega arith)

-- `packet_set_text` makes of every text that fits with its NUL a well-formed packet with the type,
-- the two names, cut to 31 bytes, and a payload from which the text is read back and whose last
-- byte in use is a NUL.
pub packet_set_text-ok :
    (type : ℕ) (sender receiver : Option Bytes) (text : Bytes)
    → length text < 1024
    → IsCString text
    → (p : Packet) × (packet_set_text type sender receiver (some text) ≡ some p)
      × Initialised type sender receiver (some (text ++ (0 ∷ []))) (length text + 1) p
      × (c_str p.payload ≡ text)
      × (get_or p.payload (p.length - 1) 1 ≡ 0)
packet_set_text-ok type sender receiver text h c =
    let whole : length (text ++ (0 ∷ [])) ≡ length text + 1 = length-append text (0 ∷ []) in
    let same : take (length text + 1) (text ++ (0 ∷ [])) ≡ text ++ (0 ∷ []) =
      take-all (length text + 1) (text ++ (0 ∷ [])) (omega arith) in
    let (p, made, i) =
      packet_init-ok type sender receiver (some (text ++ (0 ∷ []))) (length text + 1) (omega arith)
        (omega arith) in
    let shown : p.payload ≡ fill 1024 (text ++ (0 ∷ [])) = i.has_payload ∙ ap (fill 1024) same in
    (
      p,
      unfold packet_set_text in ground (arith, made),
      i,
      rw (shown, append_assoc) (c_str-append text (zeros (1024 - length (text ++ (0 ∷ [])))) c),
      rw (shown, i.has_length)
          (get_or-nul text (zeros (1024 - length (text ++ (0 ∷ [])))) (length text + 1 - 1) 1
            (omega arith)),
    )
