-- ===== src/Lww/Tests.antt =====
-- Concrete operations on drain flags and memberships.
use llm_inference.Base.{◌<◌}
use llm_inference.Base.Text.{Text}
use llm_inference.Lww.Join.{In, here, there}
use llm_inference.Lww.Converge.{Covers}
use llm_inference.Lww.Drain.Laws.{IsStamped}
use llm_inference.Base.{
  ℕ, ◌≡◌, ◌≢◌, ◌↔◌, ◌≤◌, refl, sym, ap, ◌∙◌, Bool, true, false, Option, none, some, List, [], ◌∷◌,
  arith, contains,
}
use llm_inference.Base.Text.{text_eq, text}
use llm_inference.Base.Dict
use llm_inference.Base.Dict.{Dict, IsDict}
use llm_inference.Lww.Version.{Version, newer}
use llm_inference.Lww.Join.{Op}
use llm_inference.Lww.Drain
use llm_inference.Lww.Drain.{DrainState}
use llm_inference.Lww.Drain.Laws.{set_local_wins}
use llm_inference.Lww.Members
use llm_inference.Lww.Members.{Member, MembershipState}

abbrev second : DrainState
second = record {
  s = (text "b0", record { value = false; ts = 4; origin = text "r2" }) ∷ [];
  clock = 4;
}

-- An operation with a timestamp above the clock of `second`.
abbrev late : Op Bool
late = (text "b0", record { value = true; ts = 9; origin = text "r3" })

second-IsStamped : IsStamped second
unfolding Dict.get llm_inference.Base.list_beq
second-IsStamped = record { at_key = λ k v e. ground arith }

twice : Covers (late ∷ []) (late ∷ late ∷ [])
twice op (here e) = here e
twice op (there m) = m

abbrev told : DrainState
told = (Drain.merge (late ∷ []) second).0

set_local_wins_example :
    ((op : Op Bool)
      → In op (late ∷ [])
      → op.1.ts < (Drain.set_local (text "b0") false (text "r2") told).1)
    × ((k : Text) (v : Version Bool)
        → Dict.get k told.s ≡ some v
        → v.ts < (Drain.set_local (text "b0") false (text "r2") told).1)
    × (Dict.get
          (text "b0")
          (Drain.merge
            (late ∷ late ∷ [])
            (Drain.set_local (text "b0") false (text "r2") told).0).0.s
        ≡ some (record {
          value = false;
          ts = (Drain.set_local (text "b0") false (text "r2") told).1;
          origin = text "r2";
        }))
set_local_wins_example =
    set_local_wins (text "b0") false (text "r2") (late ∷ []) (late ∷ late ∷ []) second
      second-IsStamped twice

abbrev gone : Version Member
gone = record {
  value = record { present = false; url = text ""; model = text "" };
  ts = 3;
  origin = text "r1";
}

abbrev remove_b0 : Op Member
remove_b0 = (text "b0", gone)

abbrev members : MembershipState
members = record { s = remove_b0 ∷ []; clock = 3 }

abbrev stale : List (Op Member)
stale =
    (
      text "b0",
      record {
        value = record { present = true; url = text "http://b0"; model = text "m" };
        ts = 2;
        origin = text "r2";
      },
    )
    ∷ []

still_gone : Dict.get (text "b0") (Members.merge stale members).0.s ≡ some gone
unfolding Dict.get Members.merge Members.apply llm_inference.Lww.Version.beats
    llm_inference.Base.list_beq
still_gone = refl
