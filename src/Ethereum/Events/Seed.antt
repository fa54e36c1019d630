-- ===== src/Ethereum/Events/Seed.antt =====
-- The texts of numbers and hashes, and the seed of a transfer id, determine what they are made of.
use native.Mathlib.Decide.{dec_lt}
use decentralised_interledge.Prelude.{
  ℕ, zero, suc, ◌+◌, ◌-◌, ◌*◌, ◌/◌, ◌%◌, ◌≤◌, ◌<◌, List, [], ◌∷◌, ◌++◌, ◌==◌, if◌then◌else◌, ◌≡◌,
  refl, sym, ap, ◌∙◌, arith, All, length,
}
use decentralised_interledge.Interfaces.{Bytes, Event}
use decentralised_interledge.Ethereum.Events.{digits, decimal, hex_digit, hex, hash_text, seed_of}

-- The number that digits stand for, behind those that are read.
abbrev pub value : ℕ → List ℕ → ℕ
value read [] = read
value read (c ∷ cs) = value (read * 10 + (c - 48)) cs

value-append : (read : ℕ) (xs ys : List ℕ) → value read (xs ++ ys) ≡ value (value read xs) ys
value-append read [] ys = refl
value-append read (x ∷ xs) ys = value-append (read * 10 + (x - 48)) xs ys

value-digits : (more n : ℕ) → n ≤ more → value 0 (digits more n) ≡ n
unfolding digits
value-digits zero n h = omega arith
value-digits (suc more) n h = elim (dec_lt n 10) [
  | yes small ↦ ground arith
  | no large ↦
      let ih = value-digits more (n / 10) (omega arith) in
      ground (arith, ih, value-append 0 (digits more (n / 10)) ((48 + n % 10) ∷ []))
]

-- The digits that `str` gives of a number stand for it.
pub value-decimal : (n : ℕ) → value 0 (decimal n) ≡ n
unfolding decimal
value-decimal n = value-digits n n (omega arith)

-- The text in front of the first x, and behind it.
abbrev before_x : List ℕ → List ℕ
before_x [] = []
before_x (c ∷ cs) = if c == 120 then [] else c ∷ before_x cs

abbrev after_x : List ℕ → List ℕ
after_x [] = []
after_x (c ∷ cs) = if c == 120 then cs else after_x cs

abbrev AreDigits : List ℕ → Type 0
AreDigits = All (λ c. c < 58)

AreDigits-append : (xs ys : List ℕ) → AreDigits xs → AreDigits ys → AreDigits (xs ++ ys)
AreDigits-append [] ys h k = k
AreDigits-append (x ∷ xs) ys (a, h) k = (a, AreDigits-append xs ys h k)

digits-AreDigits : (more n : ℕ) → AreDigits (digits more n)
unfolding digits
digits-AreDigits zero n = (omega arith, tt)
digits-AreDigits (suc more) n = elim (dec_lt n 10) [
  | yes small ↦ ground arith
  | no large ↦ ground (
    arith,
    AreDigits-append (digits more (n / 10)) ((48 + n % 10) ∷ []) (digits-AreDigits more (n / 10)),
  )
]

before_x-append : (xs ys : List ℕ) → AreDigits xs → before_x (xs ++ ys) ≡ xs ++ before_x ys
before_x-append [] ys h = refl
before_x-append (x ∷ xs) ys (a, h) = ground (arith, before_x-append xs ys h)

after_x-append : (xs ys : List ℕ) → AreDigits xs → after_x (xs ++ ys) ≡ after_x ys
after_x-append [] ys h = refl
after_x-append (x ∷ xs) ys (a, h) = ground (arith, after_x-append xs ys h)

hex_digit-inj : (m n : ℕ) → m < 16 → n < 16 → hex_digit m ≡ hex_digit n → m ≡ n
hex_digit-inj m n hm hn e = ground arith

-- The bytes of a hash.
abbrev pub AreBytes : Bytes → Type 0
AreBytes = All (λ b. b < 256)

byte-inj :
    (a b : ℕ)
    → a < 256
    → b < 256
    → hex_digit (a / 16) ≡ hex_digit (b / 16)
    → hex_digit (a % 16) ≡ hex_digit (b % 16)
    → a ≡ b
byte-inj a b ha hb high low =
    let h = hex_digit-inj (a / 16) (b / 16) (omega arith) (omega arith) high in
    let l = hex_digit-inj (a % 16) (b % 16) (omega arith) (omega arith) low in omega (arith, h, l)

-- Two hashes of one length, with a text behind each.
hex-inj :
    (g h : Bytes) (xs ys : List ℕ)
    → AreBytes g
    → AreBytes h
    → length g ≡ length h
    → (hex g ++ xs) ≡ (hex h ++ ys)
    → (g ≡ h) × (xs ≡ ys)
unfolding hex
hex-inj [] [] xs ys bg bh l e = (refl, e)
hex-inj [] (b ∷ h) xs ys bg bh l e = absurd (omega arith)
hex-inj (a ∷ g) [] xs ys bg bh l e = absurd (omega arith)
hex-inj (a ∷ g) (b ∷ h) xs ys (ba, bg) (bb, bh) l e =
    let (same, rest) = hex-inj g h xs ys bg bh (omega arith) cc in
    let first : a ≡ b = byte-inj a b ba bb (ground arith) (ground arith) in (cc, rest)

decimal-AreDigits : (n : ℕ) → AreDigits (decimal n)
unfolding decimal
decimal-AreDigits n = digits-AreDigits n n

before_x-seed_of : (e : Event) → before_x (seed_of e) ≡ decimal e.event_block ++ 48 ∷ []
unfolding seed_of
before_x-seed_of e =
    before_x-append (decimal e.event_block) (hash_text e.transaction_hash ++ decimal e.log_index)
      (decimal-AreDigits e.event_block)

after_x-seed_of : (e : Event) → after_x (seed_of e) ≡ hex e.transaction_hash ++ decimal e.log_index
unfolding seed_of
after_x-seed_of e =
    after_x-append (decimal e.event_block) (hash_text e.transaction_hash ++ decimal e.log_index)
      (decimal-AreDigits e.event_block)

-- A zero behind a number is ten times the number.
value-shift : (n : ℕ) → value 0 (decimal n ++ 48 ∷ []) ≡ n * 10
value-shift n = omega (arith, value-append 0 (decimal n) (48 ∷ []), value-decimal n)

-- The seed of a transfer id determines the event's block, its transaction's hash and its place in
-- the log, where the hashes are bytes and of one length: no two events share a seed.
pub seed_of-inj :
    (e f : Event)
    → AreBytes e.transaction_hash
    → AreBytes f.transaction_hash
    → length e.transaction_hash ≡ length f.transaction_hash
    → seed_of e ≡ seed_of f
    → (e.event_block ≡ f.event_block)
      × (e.transaction_hash ≡ f.transaction_hash)
      × (e.log_index ≡ f.log_index)
seed_of-inj e f be bf l same =
    let front = sym (before_x-seed_of e) ∙ ap before_x same ∙ before_x-seed_of f in
    let back = sym (after_x-seed_of e) ∙ ap after_x same ∙ after_x-seed_of f in
    let (hashes, indices) =
      hex-inj e.transaction_hash f.transaction_hash (decimal e.log_index) (decimal f.log_index) be
        bf l back in
    (
      omega
          (arith, sym (value-shift e.event_block) ∙ ap (value 0) front ∙ value-shift f.event_block),
      hashes,
      sym (value-decimal e.log_index) ∙ ap (value 0) indices ∙ value-decimal f.log_index,
    )
