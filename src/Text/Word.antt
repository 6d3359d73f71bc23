-- ===== src/Text/Word.antt =====
-- binary.BigEndian on words of a number of bytes: the first byte is the highest.
use micro_conf.Text.Order.{less, less-snoc}
use micro_conf.Base.{
  [], arith, length, length-append, ltb, refl, suc, sym, zero, ℕ, ◌%◌, ◌*◌, ◌++◌, ◌+◌, ◌/◌, ◌<◌,
  ◌==◌, ◌^◌, ◌∙◌, ◌∷◌, ◌≡◌,
}
use micro_conf.Text.Bytes.{same_iff, same, Bytes}

unfoldable pub put_word : ℕ → ℕ → Bytes
put_word zero u = []
put_word (suc w) u = put_word w (u / 256) ++ (u % 256) ∷ []

unfoldable pub get_word : ℕ → Bytes → ℕ
get_word acc [] = acc
get_word acc (x ∷ s) = get_word (acc * 256 + x) s

-- A number fits into a number of bytes.
abbrev pub FitsBytes : ℕ → ℕ → Type 0
FitsBytes zero u = u ≡ 0
FitsBytes (suc w) u = FitsBytes w (u / 256)

get_word-snoc : (a x : ℕ) (s : Bytes) → get_word a (s ++ x ∷ []) ≡ get_word a s * 256 + x
unfolding get_word
get_word-snoc a x [] = refl
get_word-snoc a x (y ∷ s) = get_word-snoc (a * 256 + y) x s

pub get_word-put_word : (w u : ℕ) → FitsBytes w u → get_word 0 (put_word w u) ≡ u
unfolding put_word
get_word-put_word zero u h = unfold get_word in sym h
get_word-put_word (suc w) u h =
    get_word-snoc 0 (u % 256) (put_word w (u / 256))
    ∙ omega (arith, get_word-put_word w (u / 256) h)

pub length-put_word : (w u : ℕ) → length (put_word w u) ≡ w
unfolding put_word
length-put_word zero u = refl
length-put_word (suc w) u =
    omega
      (arith, length-append (put_word w (u / 256)) ((u % 256) ∷ []), length-put_word w (u / 256))

-- Two numbers that fit are written alike only if they are equal.
put_word-injective :
    (w u v : ℕ) → FitsBytes w u → FitsBytes w v → put_word w u ≡ put_word w v → u ≡ v
put_word-injective w u v hu hv e =
    sym (get_word-put_word w u hu) ∙ (λ i. get_word 0 (e i)) ∙ get_word-put_word w v hv

put_word-congruent : (w u v : ℕ) → u ≡ v → put_word w u ≡ put_word w v
put_word-congruent w u v e i = put_word w (e i)

pub same-put_word :
    (w u v : ℕ) → FitsBytes w u → FitsBytes w v → same (put_word w u) (put_word w v) ≡ (u == v)
same-put_word w u v hu hv = ground (
  arith,
  same_iff (put_word w u) (put_word w v),
  put_word-injective w u v hu hv,
  put_word-congruent w u v,
)

-- The order of the words is that of the numbers.
pub less-put_word :
    (w u v : ℕ) → FitsBytes w u → FitsBytes w v → less (put_word w u) (put_word w v) ≡ ltb u v
unfolding put_word less
less-put_word zero u v hu hv = ground arith
less-put_word (suc w) u v hu hv =
    less-snoc (put_word w (u / 256)) (put_word w (v / 256)) (u % 256) (v % 256)
      (length-put_word w (u / 256) ∙ sym (length-put_word w (v / 256)))
    ∙ ground (
      arith,
      less-put_word w (u / 256) (v / 256) hu hv,
      same-put_word w (u / 256) (v / 256) hu hv,
    )

-- A uint64 fits into eight bytes.
pub fits_eight : (u : ℕ) → u < 2 ^ 64 → FitsBytes 8 u
fits_eight u h = omega arith
