-- ===== src/PubSub/Tests.antt =====
-- The broker on three subscribers, callbacks being numbers: an odd one raises, and each that is
-- called is noted.
use dist_res_engine.Base.{
  ℕ, zero, suc, String, ◌≡◌, refl, Bool, true, false, none, List, [], ◌∷◌, ◌++◌, string_eq,
}
use dist_res_engine.Base.Dict.{lookup, has_key}
use dist_res_engine.PubSub.{Registry, Event, Deliver, no_others, publish}
use dist_res_engine.PubSub.Fanout.{
  comes_back, successes, outcomes, deliver_all, publish-isolates, publish-heals, publish_drops_new,
}

abbrev is_even : ℕ → Bool
is_even zero = true
is_even (suc zero) = false
is_even (suc (suc n)) = is_even n

abbrev noting : Deliver ℕ String (List ℕ)
noting d event s = (is_even d, s ++ d ∷ [])

abbrev three : Registry ℕ
three = ("ENG001", 2) ∷ ("ENG002", 3) ∷ ("ENG003", 4) ∷ []

abbrev update_event : Event String
update_event = record { topic = "resource_update"; payload = "hi" }

publish-three :
    publish noting no_others "resource_update" "hi" three []
    ≡ (2, ("ENG001", 2) ∷ ("ENG003", 4) ∷ [], 2 ∷ 3 ∷ 4 ∷ [])
unfolding publish string_eq
publish-three = refl

publish-isolates_example :
    ((publish noting no_others "resource_update" "hi" three []).0
      ≡ successes (outcomes noting update_event three []))
    × ((publish noting no_others "resource_update" "hi" three []).2
        ≡ deliver_all noting update_event three [])
publish-isolates_example = publish-isolates noting no_others "resource_update" "hi" three []

publish-heals_example :
    lookup "ENG002" (publish noting no_others "resource_update" "hi" three []).1 ≡ none
unfolding outcomes lookup string_eq
publish-heals_example = publish-heals noting "resource_update" "hi" three [] "ENG002"

publish_drops_new_example :
    lookup "ENG002" (publish noting (comes_back "ENG002" 8) "resource_update" "hi" three []).1
    ≡ none
unfolding lookup has_key string_eq
publish_drops_new_example =
    publish_drops_new noting "ENG002" 3 8 (λ event s. refl) "resource_update" "hi" three []
      (refl, (refl, (refl, tt))) refl
