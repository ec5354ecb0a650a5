-- ===== src/HandlerTable/Links.antt =====
-- handler-table.c: the neighbours of an id in a list of ids, and when a table's links are such lists.
use fcitx_ng.Prelude.{
  elem, ℕ, ◌≡◌, refl, Bool, true, false, not, ◌&&◌, ◌||◌, Option, none, some, List, [], ◌∷◌, ◌++◌,
  ◌==◌, if◌then◌else◌, arith,
}
use fcitx_ng.ObjPool.{alloced}
use fcitx_ng.ObjPool.Chain.{IsValid}
use fcitx_ng.HandlerTable.{HandlerTable}

unfoldable pub head? : List ℕ → Option ℕ
head? [] = none
head? (j ∷ l) = some j

unfoldable pub last? : List ℕ → Option ℕ
last? [] = none
last? (j ∷ []) = some j
last? (j ∷ k ∷ l) = last? (k ∷ l)

unfoldable pub next_in : ℕ → List ℕ → Option ℕ
next_in i [] = none
next_in i (j ∷ l) = let rest = next_in i l in if i == j then head? l else rest

-- The id before `i`, where `p` is before the list.
unfoldable pub prev_from : Option ℕ → ℕ → List ℕ → Option ℕ
prev_from p i [] = none
prev_from p i (j ∷ l) = let rest = prev_from (some j) i l in if i == j then p else rest

unfoldable pub distinct : List ℕ → Bool
distinct [] = true
distinct (j ∷ l) = not (elem j l) && distinct l

-- The lists of the keys hold exactly the allocated handlers, and the links go along them.
pub record Represents (t : HandlerTable) (ids : ℕ → List ℕ) : Type 0 where
  pub pool : IsValid t.objs
  pub members : (k i : ℕ) → elem i (ids k) ≡ (alloced t.objs i && (t.obj i).key == k)
  pub once : (k : ℕ) → distinct (ids k) ≡ true
  pub first : (k : ℕ) → (t.keys k).first ≡ head? (ids k)
  pub last : (k : ℕ) → (t.keys k).last ≡ last? (ids k)
  pub next : (k i : ℕ) → elem i (ids k) ≡ true → (t.obj i).next ≡ next_in i (ids k)
  pub prev : (k i : ℕ) → elem i (ids k) ≡ true → (t.obj i).prev ≡ prev_from none i (ids k)

-- An id put at the end.
pub last?-append : (n : ℕ) (l : List ℕ) → last? (l ++ n ∷ []) ≡ some n
unfolding last?
last?-append n [] = refl
last?-append n (j ∷ []) = refl
last?-append n (j ∷ k ∷ l) = last?-append n (k ∷ l)

pub last?-none : (l : List ℕ) → last? l ≡ none → l ≡ []
unfolding last?
last?-none [] h = refl
last?-none (j ∷ []) h = ground arith
last?-none (j ∷ k ∷ l) h = ground (arith, last?-none (k ∷ l) h)

pub last?-elem : (l : List ℕ) (z : ℕ) → last? l ≡ some z → elem z l ≡ true
unfolding last?
last?-elem [] z h = ground arith
last?-elem (j ∷ []) z h = ground arith
last?-elem (j ∷ k ∷ l) z h = ground (arith, last?-elem (k ∷ l) z h)

pub head?-append : (n z : ℕ) (l : List ℕ) → last? l ≡ some z → head? (l ++ n ∷ []) ≡ head? l
unfolding head? last?
head?-append n z [] h = ground arith
head?-append n z (j ∷ l) h = refl

pub elem-append : (i n : ℕ) (l : List ℕ) → elem i (l ++ n ∷ []) ≡ (elem i l || i == n)
elem-append i n [] = ground arith
elem-append i n (j ∷ l) = ground (arith, elem-append i n l)

pub distinct-append :
    (n : ℕ) (l : List ℕ) → distinct l ≡ true → elem n l ≡ false → distinct (l ++ n ∷ []) ≡ true
unfolding distinct
distinct-append n [] d h = refl
distinct-append n (j ∷ l) d h =
    ground (arith, elem-append j n l, distinct-append n l (ground arith) (ground arith))

pub next_in-append_new : (n : ℕ) (l : List ℕ) → elem n l ≡ false → next_in n (l ++ n ∷ []) ≡ none
unfolding next_in head?
next_in-append_new n [] h = ground arith
next_in-append_new n (j ∷ l) h = ground (arith, next_in-append_new n l (ground arith))

pub next_in-append :
    (i n z : ℕ) (l : List ℕ)
    → distinct l ≡ true
    → last? l ≡ some z
    → elem i l ≡ true
    → next_in i (l ++ n ∷ []) ≡ (if i == z then some n else next_in i l)
unfolding next_in head? last? distinct
next_in-append i n z [] d h e = ground arith
next_in-append i n z (j ∷ []) d h e = ground arith
next_in-append i n z (j ∷ k ∷ l) d h e =
    let rest = next_in-append i n z (k ∷ l) in
    let inner = last?-elem (k ∷ l) z h in ground (arith, rest, inner)

pub prev_from-append :
    (p : Option ℕ) (i n : ℕ) (l : List ℕ)
    → elem i l ≡ true
    → prev_from p i (l ++ n ∷ []) ≡ prev_from p i l
unfolding prev_from
prev_from-append p i n [] h = ground arith
prev_from-append p i n (j ∷ l) h = ground (arith, prev_from-append (some j) i n l)

pub prev_from-append_new :
    (p : Option ℕ) (n z : ℕ) (l : List ℕ)
    → elem n l ≡ false
    → last? l ≡ some z
    → prev_from p n (l ++ n ∷ []) ≡ some z
unfolding prev_from last?
prev_from-append_new p n z [] h e = ground arith
prev_from-append_new p n z (j ∷ []) h e = ground arith
prev_from-append_new p n z (j ∷ k ∷ l) h e =
    ground (arith, prev_from-append_new (some j) n z (k ∷ l))

-- An id put at the front.
pub head?-none : (l : List ℕ) → head? l ≡ none → l ≡ []
unfolding head?
head?-none [] h = refl
head?-none (j ∷ l) h = ground arith

pub head?-elem : (l : List ℕ) (z : ℕ) → head? l ≡ some z → elem z l ≡ true
unfolding head?
head?-elem [] z h = ground arith
head?-elem (j ∷ l) z h = ground arith

pub last?-cons : (n z : ℕ) (l : List ℕ) → head? l ≡ some z → last? (n ∷ l) ≡ last? l
unfolding head? last?
last?-cons n z [] h = ground arith
last?-cons n z (j ∷ l) h = refl

pub prev_from-head :
    (p q : Option ℕ) (i z : ℕ) (l : List ℕ)
    → head? l ≡ some z
    → prev_from p i l ≡ (if i == z then p else prev_from q i l)
unfolding head? prev_from
prev_from-head p q i z [] h = ground arith
prev_from-head p q i z (j ∷ l) h = ground arith
