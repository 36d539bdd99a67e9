-- ===== src/Session/Tests.antt =====
-- Concrete turns of agent sessions.
use llm_inference.Base.{
  ℕ, ◌≡◌, ◌≢◌, ◌≤◌, ◌+◌, refl, true, Option, none, some, List, [], ◌∷◌, arith, contains,
}
use llm_inference.Base.Text.{Text, text_eq, text}
use llm_inference.Base.Dict
use llm_inference.Session.{SessionAffinity, pick, remember}
use llm_inference.Session.Laws.{IsValid, pick-remember}

abbrev pinned : SessionAffinity
pinned = record {
  capacity = 2;
  ttl = 10;
  by_session = (text "s1", record { backend = text "b0"; last = 3 }) ∷ [];
}

pinned-IsValid : IsValid pinned
unfolding Dict.get
pinned-IsValid = record { positive = omega arith; bounded = omega arith; distinct = (refl, tt) }

abbrev backends : List Text
backends = text "b0" ∷ text "b1" ∷ []

has_b1 : contains (text "b1") backends ≡ true
unfolding contains llm_inference.Base.list_beq
has_b1 = refl

pick-remember_example :
    (pick (remember pinned (some (text "s1")) (text "b1") 5) (some (text "s1")) backends 9).1
    ≡ some (text "b1")
pick-remember_example =
    pick-remember pinned (some (text "s1")) (text "b1") backends 5 9 pinned-IsValid refl has_b1
      (omega arith)

picks_b0 : (pick pinned (some (text "s1")) backends 9).1 ≡ some (text "b0")
unfolding pick contains Dict.get llm_inference.Base.list_beq
picks_b0 = refl

still_pinned :
    Dict.get (text "s1") (remember pinned (some (text "s2")) (text "b1") 5).by_session
    ≡ some (record { backend = text "b0"; last = 3 })
unfolding Dict.get remember llm_inference.Base.Lru.evict llm_inference.Base.Lru.touch
    Dict.move_to_end Dict.set llm_inference.Base.list_beq Dict.remove
still_pinned = refl
