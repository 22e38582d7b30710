-- ===== src/Examples/Batches.antt =====
-- `/link 3` in a group, and a batch of three messages, one without media.
use thunder_go.Prelude.{◌≤◌, ◌≡◌, refl, Bool, true, false, List, [], ◌∷◌, length, All}
use thunder_go.Bot.Links.{BatchResult, skipped, succeeded, batch, handle_link, report}
use thunder_go.Bot.Links.Chunks.{links, concat, IsChunk, report-links}
use thunder_go.Prelude.Int.{pos}
use thunder_go.Prelude.Text.{Text, codes, trim_space}
use thunder_go.Prelude.Text.Decimal.{parse_int}

abbrev results : List BatchResult
results = succeeded (codes "a") ∷ skipped ∷ succeeded (codes "b") ∷ []

abbrev all_delivered : List Text → Bool
all_delivered c = true

report-links_example :
    (concat (report all_delivered results).sent ≡ links results)
    × (All IsChunk (report all_delivered results).sent
        × (((report all_delivered results).succeeded_count ≡ length (links results))
            × ((report all_delivered results).dm_failed
                ≤ length (report all_delivered results).sent)))
report-links_example = report-links all_delivered results

three-batch : handle_link (pos 50) false true true (codes "3") ≡ batch (pos 3)
unfolding handle_link trim_space parse_int
three-batch = refl
