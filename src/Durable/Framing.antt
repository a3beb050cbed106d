-- ===== src/Durable/Framing.antt =====
-- The length prefixes make the hashed bytes of a task id unambiguous.
use graphed.Prelude.{
  ℕ, zero, suc, ◌*◌, ◌/◌, ◌%◌, ◌<◌, ◌≡◌, refl, ap, ap₂, sym, ◌∙◌, List, [], ◌∷◌, ◌++◌, arith,
  length, length-append, All,
}
use graphed.Checkpoint.Blobs.{Bytes}
use graphed.Durable.{to_bytes, framed}

power : ℕ → ℕ
power zero = 1
power (suc width) = 256 * power width

last_of : (xs ys : Bytes) (x y : ℕ) → xs ++ x ∷ [] ≡ ys ++ y ∷ [] → (xs ≡ ys) × (x ≡ y)
last_of [] [] x y h = (refl, cc)
last_of [] (b ∷ []) x y h = absurd cc
last_of [] (b ∷ c ∷ ys) x y h = absurd cc
last_of (a ∷ []) [] x y h = absurd cc
last_of (a ∷ c ∷ xs) [] x y h = absurd cc
last_of (a ∷ xs) (b ∷ ys) x y h =
    let tails : xs ++ x ∷ [] ≡ ys ++ y ∷ [] = cc in
    let (same, last) = last_of xs ys x y tails in (cc (same, h), last)

to_bytes-length : (width n : ℕ) → length (to_bytes width n) ≡ width
unfolding to_bytes
to_bytes-length zero n = refl
to_bytes-length (suc width) n = omega (
  arith,
  to_bytes-length width (n / 256),
  length-append (to_bytes width (n / 256)) (n % 256 ∷ []),
)

to_bytes-injective :
    (width n m : ℕ)
    → n < power width
    → m < power width
    → to_bytes width n ≡ to_bytes width m
    → n ≡ m
unfolding to_bytes power
to_bytes-injective zero n m h k e = omega arith
to_bytes-injective (suc width) n m h k e =
    let (high, low) =
      last_of (to_bytes width (n / 256)) (to_bytes width (m / 256)) (n % 256) (m % 256) e in
    let quotients : n / 256 ≡ m / 256 =
      to_bytes-injective width (n / 256) (m / 256) (omega arith) (omega arith) high in
    omega arith

append_split :
    (xs xs' ys ys' : Bytes)
    → length xs ≡ length xs'
    → xs ++ ys ≡ xs' ++ ys'
    → (xs ≡ xs') × (ys ≡ ys')
append_split [] [] ys ys' n h = (refl, h)
append_split [] (b ∷ xs') ys ys' n h = absurd (omega arith)
append_split (a ∷ xs) [] ys ys' n h = absurd (omega arith)
append_split (a ∷ xs) (b ∷ xs') ys ys' n h =
    let tails : xs ++ ys ≡ xs' ++ ys' = cc h in
    let (same, rest) = append_split xs xs' ys ys' (omega arith) tails in (cc (same, h), rest)

-- A length that eight bytes hold.
abbrev pub Fits : Bytes → Type 0
Fits p = length p < 256 * 256 * 256 * 256 * 256 * 256 * 256 * 256

frame-injective :
    (p p' rest rest' : Bytes)
    → Fits p
    → Fits p'
    → to_bytes 8 (length p) ++ (p ++ rest) ≡ to_bytes 8 (length p') ++ (p' ++ rest')
    → (p ≡ p') × (rest ≡ rest')
unfolding power
frame-injective p p' rest rest' fits fits' h =
    let (lengths, bodies) =
      append_split (to_bytes 8 (length p)) (to_bytes 8 (length p')) (p ++ rest) (p' ++ rest')
        (to_bytes-length 8 (length p) ∙ sym (to_bytes-length 8 (length p'))) h in
    append_split p p' rest rest'
      (to_bytes-injective 8 (length p) (length p') (omega arith) (omega arith) lengths) bodies

frame_not-empty : (p : Bytes) (rest : Bytes) → length (to_bytes 8 (length p) ++ (p ++ rest)) ≡ 0 → ⊥
frame_not-empty p rest h =
    omega
      (arith, h, to_bytes-length 8 (length p), length-append (to_bytes 8 (length p)) (p ++ rest))

-- Parts whose lengths fit in eight bytes: what is hashed determines the parts, so two different
-- lists of parts are never hashed as the same bytes.
pub framed-injective :
    (ps qs : List Bytes) → All Fits ps → All Fits qs → framed ps ≡ framed qs → ps ≡ qs
unfolding framed
framed-injective [] [] h k e = refl
framed-injective [] (q ∷ qs) h k e = absurd (frame_not-empty q (framed qs) (ap length (sym e)))
framed-injective (p ∷ ps) [] h k e = absurd (frame_not-empty p (framed ps) (ap length e))
framed-injective (p ∷ ps) (q ∷ qs) h k e =
    let (here, rest) = frame-injective p q (framed ps) (framed qs) h.0 k.0 e in
    ap₂ ◌∷◌ here (framed-injective ps qs h.1 k.1 rest)
