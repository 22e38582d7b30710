-- ===== src/Examples/Bans.antt =====
-- A collection as a list of identifiers.
use thunder_go.Prelude.{
  ◌≡◌, refl, Bool, true, false, ◌||◌, some, List, [], ◌∷◌, arith, if◌then◌else◌,
}
use thunder_go.Cache.{find}
use thunder_go.Cache.Laws.{IsValid}
use thunder_go.Cache.Peek.{peek}
use thunder_go.Prelude.Int.{ℤ, pos, eqb_ℤ, eqb_ℤ_iff}
use thunder_go.Store.Flags.{Collection, Flags, flag, is_flagged}
use thunder_go.Store.Flags.Fresh.{IsCollection, IsFresh, Answers, is_flagged-Answers}
use thunder_go.Store.Flags.Race.{overtaken, overtaken-is_flagged}

pub holds : List ℤ → ℤ → Bool
holds [] id = false
holds (j ∷ ids) id = eqb_ℤ j id || holds ids id

pub strike : ℤ → List ℤ → List ℤ
strike id [] = []
strike id (j ∷ ids) = let rest = strike id ids in if eqb_ℤ j id then rest else j ∷ rest

abbrev pub listed : Collection (List ℤ)
listed = record {
  upsert = λ id s. (true, id ∷ s);
  delete_one = λ id s. (true, strike id s);
  count_documents = λ id s. some (if holds s id then 1 else 0);
}

holds-strike :
    (id j : ℤ) (s : List ℤ) → holds (strike id s) j ≡ (if eqb_ℤ id j then false else holds s j)
unfolding holds strike
holds-strike id j [] = ground arith
holds-strike id j (i ∷ s) =
    ground (arith, holds-strike id j s, eqb_ℤ_iff i id, eqb_ℤ_iff i j, eqb_ℤ_iff id j)

pub listed-IsCollection : IsCollection listed holds
unfolding holds strike
listed-IsCollection = record {
  counts = λ id s n h. ground arith;
  upserts = λ id s h. ground (arith, eqb_ℤ_iff id id);
  deletes = λ id s h. ground (arith, holds-strike id id s, eqb_ℤ_iff id id);
  upsert_others = λ id j s h. ground (arith, eqb_ℤ_iff id j);
  delete_others = λ id j s h. ground (arith, holds-strike id j s, eqb_ℤ_iff id j);
}

abbrev pub no_bans : Flags (List ℤ)
no_bans = record { documents = []; cache = record { ll = []; max_size = 2; ttl = 60 } }

pub no_bans-IsFresh : IsFresh listed holds listed-IsCollection no_bans
unfolding peek find
no_bans-IsFresh = record { distinct = tt; right = λ j v x e. cc }

is_flagged-Answers_example :
    Answers listed holds listed-IsCollection
      (pos 7)
      no_bans
      (is_flagged listed 10 11 (pos 7) no_bans)
is_flagged-Answers_example =
    is_flagged-Answers listed holds listed-IsCollection 10 11 (pos 7) no_bans no_bans-IsFresh

flag_ok : (flag listed (pos 7) no_bans).0 ≡ true
unfolding flag
flag_ok = refl

no_bans-IsValid : IsValid no_bans.cache
no_bans-IsValid = record { distinct = tt; bounded = omega arith }

overtaken-is_flagged_example :
    ((is_flagged listed 50 51 (pos 7) (overtaken listed 10 (pos 7) 0 no_bans)).0 ≡ some false)
    × ((overtaken listed 10 (pos 7) 0 no_bans).documents ≡ pos 7 ∷ [])
overtaken-is_flagged_example =
    overtaken-is_flagged listed 10 50 51 (pos 7) no_bans no_bans-IsValid (omega arith) (omega arith)
      tt (omega arith) flag_ok
