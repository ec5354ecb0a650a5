-- ===== src/HandlerTable/Without.antt =====
-- handler-table.c: the neighbours in a list of ids after one id has left it.
use fcitx_ng.Prelude.{
  elem, ℕ, ◌≡◌, refl, true, false, not, ◌&&◌, ◌||◌, Option, none, some, List, [], ◌∷◌, ◌==◌,
  if◌then◌else◌, arith,
}
use fcitx_ng.HandlerTable.Links.{head?, last?, next_in, prev_from, distinct}

unfoldable pub without : ℕ → List ℕ → List ℕ
without i [] = []
without i (j ∷ l) = let rest = without i l in if i == j then l else j ∷ rest

pub elem-without :
    (i j : ℕ) (l : List ℕ) → distinct l ≡ true → elem j (without i l) ≡ (elem j l && not (i == j))
unfolding without distinct
elem-without i j [] d = refl
elem-without i j (k ∷ l) d = ground (arith, elem-without i j l)

pub distinct-without : (i : ℕ) (l : List ℕ) → distinct l ≡ true → distinct (without i l) ≡ true
unfolding without distinct
distinct-without i [] d = refl
distinct-without i (k ∷ l) d = ground (arith, distinct-without i l, elem-without i k l)

-- What is before an id behind the head.
prev_from-some :
    (p i : ℕ) (l : List ℕ) → elem i l ≡ true → prev_from (some p) i l ≡ none → false ≡ true
unfolding prev_from
prev_from-some p i [] h e = h
prev_from-some p i (j ∷ l) h e = ground (arith, prev_from-some j i l)

pub head?-without_first :
    (i : ℕ) (l : List ℕ)
    → elem i l ≡ true
    → prev_from none i l ≡ none
    → head? (without i l) ≡ next_in i l
unfolding without head? next_in prev_from
head?-without_first i [] h e = ground arith
head?-without_first i (j ∷ l) h e = ground (arith, prev_from-some j i l)

pub head?-without :
    (i p : ℕ) (l : List ℕ)
    → elem i l ≡ true
    → prev_from none i l ≡ some p
    → head? (without i l) ≡ head? l
unfolding without head? prev_from
head?-without i p [] h e = refl
head?-without i p (j ∷ l) h e = ground arith

-- `q` is before the list for `last?` as well.
unfoldable pub last_from : Option ℕ → List ℕ → Option ℕ
last_from q [] = q
last_from q (j ∷ l) = last_from (some j) l

pub last_from-last? : (l : List ℕ) → last_from none l ≡ last? l
unfolding last_from last?
last_from-last? [] = refl
last_from-last? (j ∷ l) = behind j l
  where
    behind : (k : ℕ) (m : List ℕ) → last_from (some k) m ≡ last? (k ∷ m)
    behind k [] = refl
    behind k (n ∷ m) = behind n m

pub last_from-without_last :
    (p : Option ℕ) (i : ℕ) (l : List ℕ)
    → distinct l ≡ true
    → elem i l ≡ true
    → next_in i l ≡ none
    → last_from p (without i l) ≡ prev_from p i l
unfolding without next_in prev_from last_from distinct head?
last_from-without_last p i [] d h e = ground arith
last_from-without_last p i (j ∷ []) d h e = ground arith
last_from-without_last p i (j ∷ k ∷ l) d h e =
    ground (arith, last_from-without_last (some j) i (k ∷ l))

pub last_from-without :
    (p : Option ℕ) (i q : ℕ) (l : List ℕ)
    → elem i l ≡ true
    → next_in i l ≡ some q
    → last_from p (without i l) ≡ last_from p l
unfolding without next_in last_from head?
last_from-without p i q [] h e = ground arith
last_from-without p i q (j ∷ []) h e = ground arith
last_from-without p i q (j ∷ k ∷ l) h e = ground (arith, last_from-without (some j) i q (k ∷ l))

-- The links of the ids that stay.
pub next_in-without_first :
    (i j : ℕ) (l : List ℕ)
    → distinct l ≡ true
    → elem i l ≡ true
    → (i == j) ≡ false
    → prev_from none i l ≡ none
    → next_in j (without i l) ≡ next_in j l
unfolding without next_in prev_from
next_in-without_first i j [] d h n e = refl
next_in-without_first i j (k ∷ l) d h n e = ground (arith, prev_from-some k i l)

prev_from-elem :
    (x i p : ℕ) (l : List ℕ) → prev_from (some x) i l ≡ some p → ((p == x) || elem p l) ≡ true
unfolding prev_from
prev_from-elem x i p [] e = ground arith
prev_from-elem x i p (k ∷ l) e = ground (arith, prev_from-elem k i p l)

pub prev_from-none : (i p : ℕ) (l : List ℕ) → prev_from none i l ≡ some p → elem p l ≡ true
unfolding prev_from
prev_from-none i p [] e = ground arith
prev_from-none i p (k ∷ l) e = ground (arith, prev_from-elem k i p l)

-- `k` is before the list, and `p` before `i`.
head?-without_behind :
    (k i p : ℕ) (l : List ℕ)
    → elem k l ≡ false
    → elem i l ≡ true
    → prev_from (some k) i l ≡ some p
    → head? (without i l) ≡ (if k == p then next_in i l else head? l)
unfolding without next_in prev_from head?
head?-without_behind k i p [] d h e = ground arith
head?-without_behind k i p (m ∷ l) d h e = ground (arith, prev_from-elem m i p l)

next_in-without_behind :
    (x i j p : ℕ) (l : List ℕ)
    → elem x l ≡ false
    → distinct l ≡ true
    → elem i l ≡ true
    → elem j l ≡ true
    → (i == j) ≡ false
    → prev_from (some x) i l ≡ some p
    → next_in j (without i l) ≡ (if j == p then next_in i l else next_in j l)
unfolding without next_in prev_from distinct
next_in-without_behind x i j p [] a d h g n e = ground arith
next_in-without_behind x i j p (k ∷ l) a d h g n e =
    ground (arith, next_in-without_behind k i j p l, head?-without_behind k i p l)

pub next_in-without :
    (i j p : ℕ) (l : List ℕ)
    → distinct l ≡ true
    → elem i l ≡ true
    → elem j l ≡ true
    → (i == j) ≡ false
    → prev_from none i l ≡ some p
    → next_in j (without i l) ≡ (if j == p then next_in i l else next_in j l)
unfolding without next_in prev_from distinct
next_in-without i j p [] d h g n e = ground arith
next_in-without i j p (k ∷ l) d h g n e =
    ground (arith, next_in-without_behind k i j p l, head?-without_behind k i p l)

pub prev_from-without_last :
    (x : Option ℕ) (i j : ℕ) (l : List ℕ)
    → distinct l ≡ true
    → elem i l ≡ true
    → (i == j) ≡ false
    → next_in i l ≡ none
    → prev_from x j (without i l) ≡ prev_from x j l
unfolding without next_in prev_from distinct head?
prev_from-without_last x i j [] d h n e = refl
prev_from-without_last x i j (k ∷ []) d h n e = ground arith
prev_from-without_last x i j (k ∷ m ∷ l) d h n e =
    ground (arith, prev_from-without_last (some k) i j (m ∷ l))

pub next_in-elem : (i q : ℕ) (l : List ℕ) → next_in i l ≡ some q → elem q l ≡ true
unfolding next_in head?
next_in-elem i q [] e = ground arith
next_in-elem i q (k ∷ []) e = ground arith
next_in-elem i q (k ∷ m ∷ l) e = ground (arith, next_in-elem i q (m ∷ l))

pub prev_from-without :
    (x : Option ℕ) (i j q : ℕ) (l : List ℕ)
    → distinct l ≡ true
    → elem i l ≡ true
    → elem j l ≡ true
    → (i == j) ≡ false
    → next_in i l ≡ some q
    → prev_from x j (without i l) ≡ (if j == q then prev_from x i l else prev_from x j l)
unfolding without next_in prev_from distinct head?
prev_from-without x i j q [] d h g n e = ground arith
prev_from-without x i j q (k ∷ []) d h g n e = ground arith
prev_from-without x i j q (k ∷ m ∷ l) d h g n e =
    ground (arith, prev_from-without (some k) i j q (m ∷ l), next_in-elem i q (m ∷ l))
