-- ===== src/StringList/Split.antt =====
-- stringlist.c: joining the parts of a text, and the parts that are not empty.
use fcitx_ng.Prelude.{
  ℕ, ◌-◌, ◌≡◌, refl, sym, ap, ◌∙◌, Bool, true, false, not, some, List, [], ◌∷◌, ◌++◌, ◌==◌,
  if◌then◌else◌, length, take, length-append, append_assoc, append-nil, arith,
}
use fcitx_ng.Strings.{Text, strchr}
use fcitx_ng.HashSet.Parse.{take-append_last}
use fcitx_ng.StringList.{append_found, split_from, split_full, list_copied, list_join}

list_copied-append :
    (delm : ℕ) (list : List Text) (part : Text)
    → list_copied delm (list ++ part ∷ []) ≡ list_copied delm list ++ (part ++ delm ∷ [])
unfolding list_copied
list_copied-append delm [] part = refl
list_copied-append delm (str ∷ list) part =
    rw (list_copied-append delm list part)
      (sym (append_assoc str (delm ∷ list_copied delm list) (part ++ delm ∷ [])))

-- The text with a delimiter behind its last part, where `begun` tells whether a part has begun.
unfoldable closed : ℕ → Bool → Text → Text
closed delm false [] = []
closed delm true [] = delm ∷ []
closed delm begun (c ∷ str) = c ∷ closed delm (not (c == delm)) str

list_copied-split_from :
    (delm : ℕ) (str part : Text) (list : List Text)
    → list_copied delm (split_from true (delm ∷ []) str part list)
      ≡ list_copied delm list ++ (part ++ closed delm (not (length part == 0)) str)
unfolding split_from closed strchr
list_copied-split_from delm [] [] list = sym (append-nil (list_copied delm list))
list_copied-split_from delm [] (d ∷ part) list =
    ground (arith, list_copied-append delm list (d ∷ part))
list_copied-split_from delm (c ∷ str) part list = ground (
  arith,
  list_copied-split_from delm str [] (list ++ part ∷ []),
  list_copied-split_from delm str (part ++ c ∷ []) list,
  list_copied-append delm list part,
  length-append part (c ∷ []),
  append_assoc part (c ∷ []) (closed delm true str),
  append_assoc (list_copied delm list) (part ++ delm ∷ []) (closed delm false str),
  append_assoc part (delm ∷ []) (closed delm false str),
)

-- The text without a delimiter at its end.
unfoldable pub without_last : ℕ → Text → Text
without_last delm [] = []
without_last delm (c ∷ []) = if c == delm then [] else c ∷ []
without_last delm (c ∷ d ∷ str) = c ∷ without_last delm (d ∷ str)

closed-without_last :
    (delm : ℕ) (begun : Bool) (c : ℕ) (str : Text)
    → closed delm begun (c ∷ str) ≡ without_last delm (c ∷ str) ++ delm ∷ []
unfolding closed without_last
closed-without_last delm begun c [] = ground arith
closed-without_last delm begun c (d ∷ str) =
    ap (λ (t : Text). c ∷ t) (closed-without_last delm (not (c == delm)) d str)

list_join-take :
    (delm : ℕ) (list : List Text)
    → list_join (some list) delm
      ≡ some (take (length (list_copied delm list) - 1) (list_copied delm list))
unfolding list_join
list_join-take delm [] = refl
list_join-take delm (str ∷ list) = refl

take-closed :
    (delm : ℕ) (str : Text)
    → take (length (closed delm false str) - 1) (closed delm false str) ≡ without_last delm str
unfolding closed without_last
take-closed delm [] = refl
take-closed delm (c ∷ str) =
    let whole = closed-without_last delm false c str in
    let size : length (closed delm false (c ∷ str)) - 1 ≡ length (without_last delm (c ∷ str)) =
      omega (
        arith,
        ap (λ (t : Text). length t) whole,
        length-append (without_last delm (c ∷ str)) (delm ∷ []),
      ) in
    ap (λ (t : Text). take (length (closed delm false (c ∷ str)) - 1) t) whole
    ∙ take-append_last (without_last delm (c ∷ str)) delm _ (sym size)

-- Splitting a text at a delimiter with the empty parts, and joining the parts by it, gives the
-- text without one delimiter at its end.
pub list_join-split_full :
    (str : Text) (delm : ℕ)
    → list_join (some (split_full str (delm ∷ []) true)) delm ≡ some (without_last delm str)
unfolding list_copied closed
list_join-split_full str delm =
    list_join-take delm (split_full str (delm ∷ []) true)
    ∙ ap (λ (t : Text). some (take (length t - 1) t)) (list_copied-split_from delm str [] [])
    ∙ ap some (take-closed delm str)

unfoldable pub nonempties : List Text → List Text
nonempties [] = []
nonempties (str ∷ list) = if length str == 0 then nonempties list else str ∷ nonempties list

nonempties-append_found :
    (list : List Text) (part : Text)
    → nonempties (append_found true list part) ≡ append_found false (nonempties list) part
unfolding nonempties
nonempties-append_found [] part = ground arith
nonempties-append_found (str ∷ list) part = ground (arith, nonempties-append_found list part)

split_from-nonempties :
    (delm str part : Text) (list : List Text)
    → split_from false delm str part (nonempties list)
      ≡ nonempties (split_from true delm str part list)
unfolding split_from
split_from-nonempties delm [] part list = ground (arith, nonempties-append_found list part)
split_from-nonempties delm (c ∷ str) part list = ground (
  arith,
  split_from-nonempties delm str [] (append_found true list part),
  split_from-nonempties delm str (part ++ c ∷ []) list,
  nonempties-append_found list part,
)

-- A split that does not keep the empty parts gives the parts of the one that keeps them, without
-- those that are empty, for any set of delimiters.
pub split_full-nonempties :
    (str delm : Text) → split_full str delm false ≡ nonempties (split_full str delm true)
unfolding nonempties
split_full-nonempties str delm = split_from-nonempties delm str [] []
