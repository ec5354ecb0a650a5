-- ===== src/Tests/StringLists.antt =====
-- stringlist.c on concrete texts: runs, and the theorems at concrete inputs.
use fcitx_ng.Prelude.{◌≡◌, refl, true, false, some, [], ◌∷◌}
use fcitx_ng.Strings.{Text, strchr}
use fcitx_ng.StringList.{split_full, split_from, list_join, list_contains}
use fcitx_ng.StringList.Split.{
  without_last, nonempties, list_join-split_full, split_full-nonempties,
}

-- "a,,b," at the comma.
abbrev text : Text
text = 97 ∷ 44 ∷ 44 ∷ 98 ∷ 44 ∷ []

kept : split_full text (44 ∷ []) true ≡ (97 ∷ []) ∷ [] ∷ (98 ∷ []) ∷ []
unfolding split_from strchr
kept = refl

not_kept : split_full text (44 ∷ []) false ≡ (97 ∷ []) ∷ (98 ∷ []) ∷ []
unfolding split_from strchr
not_kept = refl

second_contained : list_contains ((97 ∷ []) ∷ (98 ∷ []) ∷ []) (98 ∷ []) ≡ true
unfolding list_contains
second_contained = refl

list_join-split_full_example :
    list_join (some (split_full text (44 ∷ []) true)) 44 ≡ some (without_last 44 text)
list_join-split_full_example = list_join-split_full text 44

split_full-nonempties_example :
    split_full text (44 ∷ 59 ∷ []) false ≡ nonempties (split_full text (44 ∷ 59 ∷ []) true)
split_full-nonempties_example = split_full-nonempties text (44 ∷ 59 ∷ [])
