-- ===== src/Core/Config/Origins.antt =====
-- What `_split_cors` gives, and that it reads back a list that is joined by commas.
use Prim.Native.Char.{Char, code}
use Prim.Native.String.{◌++◌ as str_append}
use Prim.Native.String.append
use hotspot_payment_gateway.Base.{
  ℕ, String, Bool, Bool-cases, false, ◌||◌, ◌&&◌, ◌≡◌, refl, ap, ◌∙◌, inl, inr, All, List, [], ◌∷◌,
  ◌==◌, arith,
}
use hotspot_payment_gateway.Base.Texts.{is_space, lstrip, rstrip, strip, is_empty}
use hotspot_payment_gateway.Core.Config.{text, prepended, split, stripped, split_cors}

-- The character is somewhere in the text.
abbrev pub contains : ℕ → String → Bool
contains sep String.[] = false
contains sep (String.◌∷◌ c s) = code c == sep || contains sep s

-- `",".join(origins)`
abbrev pub joined : List String → String
joined [] = String.[]
joined (o ∷ []) = o
joined (o ∷ p ∷ rest) = str_append o (String.◌∷◌ "," (joined (p ∷ rest)))

-- An origin without spaces around it and commas in it.
pub record IsOrigin (o : String) : Type 0 where
  pub bare : strip o ≡ o
  pub used : is_empty o ≡ false
  pub one : contains b',' o ≡ false

split_one : (sep : ℕ) (s : String) → contains sep s ≡ false → split sep s ≡ s ∷ []
unfolding split
split_one sep String.[] h = refl
split_one sep (String.◌∷◌ c s) h =
    let k = split_one sep s (ground arith) in
    let n : (code c == sep) ≡ false = ground arith in rw (n, k) refl

split_append :
    (s t : String)
    → contains b',' s ≡ false
    → split b',' (str_append s (String.◌∷◌ "," t)) ≡ s ∷ split b',' t
unfolding split
split_append String.[] t h = ap (split b',') (append.nil (String.◌∷◌ "," t))
split_append (String.◌∷◌ c s) t h =
    let k = split_append s t (ground arith) in
    let n : (code c == b',') ≡ false = ground arith in
    rw (append.cons c s (String.◌∷◌ "," t), n, k) refl

split-joined :
    (o : String) (rest : List String)
    → All IsOrigin (o ∷ rest)
    → split b',' (joined (o ∷ rest)) ≡ o ∷ rest
split-joined o [] h = split_one b',' o h.0.one
split-joined o (p ∷ rest) h =
    split_append o (joined (p ∷ rest)) h.0.one ∙ ap (λ xs. o ∷ xs) (split-joined p rest h.1)

stripped_same : (os : List String) → All IsOrigin os → stripped os ≡ os
unfolding stripped
stripped_same [] h = refl
stripped_same (o ∷ os) h = rw (h.0.bare, h.0.used, stripped_same os h.1) refl

-- A list of origins is read back from its text.
pub split_cors-joined : (os : List String) → All IsOrigin os → split_cors (text (joined os)) ≡ os
unfolding split_cors split stripped strip lstrip rstrip
split_cors-joined [] h = refl
split_cors-joined (o ∷ os) h = rw (split-joined o os h) (stripped_same (o ∷ os) h)

-- A text without a space at its start.
IsTrimmed : String → Type 0
IsTrimmed String.[] = Unit
IsTrimmed (String.◌∷◌ c s) = is_space (code c) ≡ false

lstrip-IsTrimmed : (s : String) → IsTrimmed (lstrip s)
unfolding lstrip IsTrimmed
lstrip-IsTrimmed String.[] = tt
lstrip-IsTrimmed (String.◌∷◌ c s) = elim (Bool-cases (is_space (code c))) [
  | inl y ↦ rw y (lstrip-IsTrimmed s)
  | inr n ↦ rw n n
]

rstrip-rstrip : (s : String) → rstrip (rstrip s) ≡ rstrip s
unfolding rstrip
rstrip-rstrip String.[] = refl
rstrip-rstrip (String.◌∷◌ c s) = elim (Bool-cases (is_empty (rstrip s) && is_space (code c))) [
  | inl y ↦ rw y refl
  | inr n ↦ rw (n, rstrip-rstrip s, n) refl
]

lstrip-rstrip : (s : String) → IsTrimmed s → lstrip (rstrip s) ≡ rstrip s
unfolding lstrip rstrip IsTrimmed
lstrip-rstrip String.[] h = refl
lstrip-rstrip (String.◌∷◌ c s) h = elim (Bool-cases (is_empty (rstrip s) && is_space (code c))) [
  | inl y ↦ rw y refl
  | inr n ↦ rw (n, h) refl
]

-- Stripping twice is stripping once.
strip-strip : (s : String) → strip (strip s) ≡ strip s
unfolding strip
strip-strip s = ap rstrip (lstrip-rstrip (lstrip s) (lstrip-IsTrimmed s)) ∙ rstrip-rstrip (lstrip s)

contains-lstrip : (sep : ℕ) (s : String) → contains sep s ≡ false → contains sep (lstrip s) ≡ false
unfolding lstrip
contains-lstrip sep String.[] h = refl
contains-lstrip sep (String.◌∷◌ c s) h = elim (Bool-cases (is_space (code c))) [
  | inl y ↦ rw y (contains-lstrip sep s (ground arith))
  | inr n ↦ rw n h
]

contains-rstrip : (sep : ℕ) (s : String) → contains sep s ≡ false → contains sep (rstrip s) ≡ false
unfolding rstrip
contains-rstrip sep String.[] h = refl
contains-rstrip sep (String.◌∷◌ c s) h =
    elim (Bool-cases (is_empty (rstrip s) && is_space (code c))) [
      | inl y ↦ rw y refl
      | inr n ↦ let k = contains-rstrip sep s (ground arith) in rw n (ground arith)
    ]

contains-strip : (sep : ℕ) (s : String) → contains sep s ≡ false → contains sep (strip s) ≡ false
unfolding strip
contains-strip sep s h = contains-rstrip sep (lstrip s) (contains-lstrip sep s h)

Free : ℕ → List String → Type 0
Free sep = All (λ s. contains sep s ≡ false)

prepended-Free :
    (sep : ℕ) (c : Char) (parts : List String)
    → (code c == sep) ≡ false
    → Free sep parts
    → Free sep (prepended c parts)
unfolding Free
prepended-Free sep c [] n h = (rw n refl, tt)
prepended-Free sep c (part ∷ parts) n h = (rw (n, h.0) refl, h.1)

split-Free : (sep : ℕ) (s : String) → Free sep (split sep s)
unfolding split Free
split-Free sep String.[] = (refl, tt)
split-Free sep (String.◌∷◌ c s) = elim (Bool-cases (code c == sep)) [
  | inl y ↦ rw y (refl, split-Free sep s)
  | inr n ↦ rw n (prepended-Free sep c (split sep s) n (split-Free sep s))
]

stripped-IsOrigin : (parts : List String) → Free b',' parts → All IsOrigin (stripped parts)
unfolding stripped Free
stripped-IsOrigin [] h = tt
stripped-IsOrigin (o ∷ parts) h = elim (Bool-cases (is_empty (strip o))) [
  | inl y ↦ rw y (stripped-IsOrigin parts h.1)
  | inr n ↦ rw n (
    record { bare = strip-strip o; used = n; one = contains-strip b',' o h.0 },
    stripped-IsOrigin parts h.1,
  )
]

-- Whatever text _split_cors is given, it makes of it origins that are not empty and have neither
-- spaces around them nor commas in them; when they are joined by commas and split again, they are
-- the same.
pub split_cors-IsOrigin :
    (v : String)
    → All IsOrigin (split_cors (text v))
      × (split_cors (text (joined (split_cors (text v)))) ≡ split_cors (text v))
unfolding split_cors
split_cors-IsOrigin v =
    let h = stripped-IsOrigin (split b',' v) (split-Free b',' v) in
    (h, split_cors-joined (split_cors (text v)) h)
