-- ===== src/Prelude/Texts.antt =====
-- The order of texts, by code points, and decimal numbers.
use Prim.Native.Char.{Char, code}
use mathlib.Core.Path.{ap₂}
use text.Mathlib.TextEquality.{Char-path}
use agent_city.Prelude.Lists.{All, length}
use agent_city.Prelude.Tests.{ltb, leb, ltb→lt, Bool-cases, if◌then◌else◌}
use Prim.Native.Nat.{ℕ, zero, suc, ◌+◌, ◌-◌, ◌*◌, ◌/◌, ◌%◌, ◌≤◌, ◌<◌}
use Prim.Native.String.{String}
use mathlib.Core.Path.{◌≡◌, refl, sym, ◌∙◌, ap}
use mathlib.Core.Logic.{◌≢◌, ◌⊎◌, inl, inr}
use mathlib.Core.Bool.{Bool, true, false, ◌&&◌}
use mathlib.Core.Option.{Option, none, some}
use mathlib.Core.List.{List, [], ◌∷◌}
use native.Mathlib.Omega.{arith}

-- `s <= t`
unfoldable pub text_le : String → String → Bool
text_le String.[] t = true
text_le (String.◌∷◌ c s) String.[] = false
text_le (String.◌∷◌ c s) (String.◌∷◌ d t) =
    let rest = text_le s t in
    if ltb (code c) (code d) then true else if ltb (code d) (code c) then false else rest

pub text_le_total : (s t : String) → (text_le s t ≡ true) ⊎ (text_le t s ≡ true)
unfolding text_le
text_le_total String.[] t = ground arith
text_le_total (String.◌∷◌ c s) String.[] = ground arith
text_le_total (String.◌∷◌ c s) (String.◌∷◌ d t) = ground (arith, text_le_total s t)

pub text_le_trans : (s t u : String) → text_le s t ≡ true → text_le t u ≡ true → text_le s u ≡ true
unfolding text_le
text_le_trans String.[] t u p q = refl
text_le_trans (String.◌∷◌ c s) String.[] u p q = ground arith
text_le_trans (String.◌∷◌ c s) (String.◌∷◌ d t) String.[] p q = ground arith
text_le_trans (String.◌∷◌ c s) (String.◌∷◌ d t) (String.◌∷◌ e u) p q =
    ground (arith, text_le_trans s t u)

pub text_le_antisym : (s t : String) → text_le s t ≡ true → text_le t s ≡ true → s ≡ t
unfolding text_le
text_le_antisym String.[] String.[] p q = refl
text_le_antisym String.[] (String.◌∷◌ d t) p q = ground arith
text_le_antisym (String.◌∷◌ c s) String.[] p q = ground arith
text_le_antisym (String.◌∷◌ c s) (String.◌∷◌ d t) p q =
    ap₂ String.◌∷◌ (Char-path c d (ground arith))
      (text_le_antisym s t (ground arith) (ground arith))

-- The decimal digits of a number, most significant first. The fuel is the number itself.
digits_go : ℕ → ℕ → List ℕ → List ℕ
digits_go zero n acc = n ∷ acc
digits_go (suc f) n acc =
    let more = digits_go f (n / 10) ((n % 10) ∷ acc) in if ltb n 10 then n ∷ acc else more

unfoldable pub digits : ℕ → List ℕ
unfolding digits_go
digits n = digits_go n n []

abbrev digit : ℕ → Char
digit zero = "0"
digit (suc zero) = "1"
digit (suc (suc zero)) = "2"
digit (suc (suc (suc zero))) = "3"
digit (suc (suc (suc (suc zero)))) = "4"
digit (suc (suc (suc (suc (suc zero))))) = "5"
digit (suc (suc (suc (suc (suc (suc zero)))))) = "6"
digit (suc (suc (suc (suc (suc (suc (suc zero))))))) = "7"
digit (suc (suc (suc (suc (suc (suc (suc (suc zero)))))))) = "8"
digit _ = "9"

-- The digits as text, in front of `rest`.
render : List ℕ → String
render [] = ""
render (d ∷ ds) = String.◌∷◌ (digit d) (render ds)

zeros : ℕ → String → String
zeros zero s = s
zeros (suc k) s = String.◌∷◌ "0" (zeros k s)

-- `f"{n:0{width}d}"`
unfoldable pub zero_padded : ℕ → ℕ → String
unfolding digits render zeros
zero_padded width n = let ds = digits n in zeros (width - length ds) (render ds)

-- The number that a text of digits stands for, read on from `a`.
read : ℕ → String → ℕ
read a String.[] = a
read a (String.◌∷◌ c s) = read (a * 10 + (code c - 48)) s

read_list : ℕ → List ℕ → ℕ
read_list a [] = a
read_list a (d ∷ ds) = read_list (a * 10 + d) ds

digits_go-small :
    (f n : ℕ) (acc : List ℕ) → n ≤ f → All (λ d. d < 10) acc → All (λ d. d < 10) (digits_go f n acc)
unfolding digits_go
digits_go-small zero n acc h small = (omega arith, small)
digits_go-small (suc f) n acc h small = elim (Bool-cases (ltb n 10)) [
  | inl done ↦ rw done (ltb→lt n 10 done, small)
  | inr more ↦
      rw more (digits_go-small f (n / 10) ((n % 10) ∷ acc) (ground arith) (omega arith, small))
]

read_list-digits_go : (f n : ℕ) (acc : List ℕ) → read_list 0 (digits_go f n acc) ≡ read_list n acc
unfolding digits_go read_list
read_list-digits_go zero n acc = ap (λ k. read_list k acc) (omega arith)
read_list-digits_go (suc f) n acc = elim (Bool-cases (ltb n 10)) [
  | inl done ↦ rw done (ap (λ k. read_list k acc) (omega arith))
  | inr more ↦
      rw more
        (read_list-digits_go f (n / 10) ((n % 10) ∷ acc) ∙ ap (λ k. read_list k acc) (omega arith))
]

code-digit : (d : ℕ) → d < 10 → code (digit d) - 48 ≡ d
code-digit zero h = refl
code-digit (suc zero) h = refl
code-digit (suc (suc zero)) h = refl
code-digit (suc (suc (suc zero))) h = refl
code-digit (suc (suc (suc (suc zero)))) h = refl
code-digit (suc (suc (suc (suc (suc zero))))) h = refl
code-digit (suc (suc (suc (suc (suc (suc zero)))))) h = refl
code-digit (suc (suc (suc (suc (suc (suc (suc zero))))))) h = refl
code-digit (suc (suc (suc (suc (suc (suc (suc (suc zero)))))))) h = refl
code-digit (suc (suc (suc (suc (suc (suc (suc (suc (suc zero))))))))) h = refl
code-digit (suc (suc (suc (suc (suc (suc (suc (suc (suc (suc d)))))))))) h = absurd (omega arith)

read-render : (a : ℕ) (ds : List ℕ) → All (λ d. d < 10) ds → read a (render ds) ≡ read_list a ds
unfolding read render read_list
read-render a [] h = refl
read-render a (d ∷ ds) h =
    ap (λ k. read (a * 10 + k) (render ds)) (code-digit d h.0) ∙ read-render (a * 10 + d) ds h.1

read-zeros : (k : ℕ) (s : String) → read 0 (zeros k s) ≡ read 0 s
unfolding read zeros
read-zeros zero s = refl
read-zeros (suc k) s = read-zeros k s

-- What was printed can be read back, so two numbers are never printed alike.
read-zero_padded : (width n : ℕ) → read 0 (zero_padded width n) ≡ n
unfolding zero_padded read_list
read-zero_padded width n =
    read-zeros _ (render (digits n))
    ∙ read-render 0 (digits n) (digits_go-small n n [] (omega arith) tt)
    ∙ read_list-digits_go n n []

pub zero_padded-injective : (width m n : ℕ) → zero_padded width m ≡ zero_padded width n → m ≡ n
zero_padded-injective width m n p =
    sym (read-zero_padded width m) ∙ ap (read 0) p ∙ read-zero_padded width n

-- `str(n)`
unfoldable pub decimal : ℕ → String
unfolding digits render
decimal n = render (digits n)

all_digits : String → Bool
all_digits String.[] = true
all_digits (String.◌∷◌ c s) = leb 48 (code c) && leb (code c) 57 && all_digits s

-- `int(s)`, of a text of digits alone; any other text is refused.
unfoldable pub parse_int : String → Option ℕ
unfolding all_digits read
parse_int String.[] = none
parse_int (String.◌∷◌ c s) =
    if all_digits (String.◌∷◌ c s) then some (read 0 (String.◌∷◌ c s)) else none

digit-range : (d : ℕ) → d < 10 → (leb 48 (code (digit d)) && leb (code (digit d)) 57) ≡ true
digit-range zero h = refl
digit-range (suc zero) h = refl
digit-range (suc (suc zero)) h = refl
digit-range (suc (suc (suc zero))) h = refl
digit-range (suc (suc (suc (suc zero)))) h = refl
digit-range (suc (suc (suc (suc (suc zero))))) h = refl
digit-range (suc (suc (suc (suc (suc (suc zero)))))) h = refl
digit-range (suc (suc (suc (suc (suc (suc (suc zero))))))) h = refl
digit-range (suc (suc (suc (suc (suc (suc (suc (suc zero)))))))) h = refl
digit-range (suc (suc (suc (suc (suc (suc (suc (suc (suc zero))))))))) h = refl
digit-range (suc (suc (suc (suc (suc (suc (suc (suc (suc (suc d)))))))))) h = absurd (omega arith)

all_digits-render : (ds : List ℕ) → All (λ d. d < 10) ds → all_digits (render ds) ≡ true
unfolding all_digits render
all_digits-render [] h = refl
all_digits-render (d ∷ ds) h = ground (arith, digit-range d h.0, all_digits-render ds h.1)

parse_int-numeral : (s : String) → s ≢ "" → all_digits s ≡ true → parse_int s ≡ some (read 0 s)
unfolding parse_int
parse_int-numeral String.[] ne h = absurd (ne refl)
parse_int-numeral (String.◌∷◌ c s) ne h = ground arith

render-ne : (ds : List ℕ) → ds ≢ [] → render ds ≢ ""
unfolding render
render-ne [] ne e = ne refl
render-ne (d ∷ ds) ne e = cc

digits_go-ne : (f n : ℕ) (acc : List ℕ) → digits_go f n acc ≢ []
unfolding digits_go
digits_go-ne zero n acc e = cc
digits_go-ne (suc f) n acc e = ground (arith, digits_go-ne f (n / 10) ((n % 10) ∷ acc))

pub parse_int-decimal : (n : ℕ) → parse_int (decimal n) ≡ some n
unfolding decimal digits read_list
parse_int-decimal n =
    let small = digits_go-small n n [] (omega arith) tt in
    parse_int-numeral _ (render-ne (digits_go n n []) (digits_go-ne n n []))
      (all_digits-render _ small)
    ∙ ap some (read-render 0 _ small ∙ read_list-digits_go n n [])
