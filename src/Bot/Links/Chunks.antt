-- ===== src/Bot/Links/Chunks.antt =====
-- internal/bot/handlers_link.go: the messages in which a batch of links is sent.
use thunder_go.Prelude.{
  ◌+◌, ◌≤◌, ◌<◌, ◌≡◌, refl, sym, ap, ◌∙◌, subst, inl, inr, Bool, List, [], ◌∷◌, ◌++◌, append-nil,
  append_assoc, arith, length, length-append, All, All-append, leb, leb-false→lt, Bool-cases,
}
use thunder_go.Bot.Links.{
  flush_chunk, report_one, add_link, report, report_from, BatchResult, untouched, skipped, failed,
  succeeded, chunk_size, Report, flush_links,
}
use thunder_go.Prelude.Text.{Text}

-- The links of the results, in their order.
pub links : List BatchResult → List Text
links [] = []
links (succeeded t ∷ bs) = t ∷ links bs
links (untouched ∷ bs) = links bs
links (skipped ∷ bs) = links bs
links (failed ∷ bs) = links bs

pub concat : List (List Text) → List Text
concat [] = []
concat (c ∷ cs) = c ++ concat cs

-- A message of one link at least and ten at most.
abbrev pub IsChunk : List Text → Type 0
IsChunk c = (1 ≤ length c) × (length c ≤ chunk_size)

-- What has been sent and what waits are the links so far.
abbrev pub IsReport : List Text → Report → Type 0
IsReport ls r =
    (concat r.sent ++ r.chunk ≡ ls)
    × (All IsChunk r.sent × ((r.succeeded_count ≡ length ls) × (r.dm_failed ≤ length r.sent)))

concat-append : (cs ds : List (List Text)) → concat (cs ++ ds) ≡ concat cs ++ concat ds
unfolding concat
concat-append [] ds = refl
concat-append (c ∷ cs) ds =
    ap (λ t. c ++ t) (concat-append cs ds) ∙ sym (append_assoc c (concat cs) (concat ds))

concat-one : (c : List Text) → concat (c ∷ []) ≡ c
unfolding concat
concat-one c = append-nil c

module _ (delivers : List Text → Bool) where
  flush_links-IsReport :
      (ls : List Text) (r : Report) (c : List Text)
      → r.chunk ≡ c
      → length c ≤ chunk_size
      → IsReport ls r
      → IsReport ls (flush_links delivers r c) × ((flush_links delivers r c).chunk ≡ [])
  unfolding flush_links
  flush_links-IsReport ls r [] e b h = (h, e)
  flush_links-IsReport ls r (t ∷ ts) e b (all, (ok, (n, d))) =
      let sent_all : concat (r.sent ++ ((t ∷ ts) ∷ [])) ≡ concat r.sent ++ (t ∷ ts) =
        concat-append r.sent ((t ∷ ts) ∷ []) ∙ ap (λ x. concat r.sent ++ x) (concat-one (t ∷ ts)) in
      (
        (
          append-nil _ ∙ (sent_all ∙ (ap (λ x. concat r.sent ++ x) (sym e) ∙ all)),
          (
            All-append IsChunk r.sent ((t ∷ ts) ∷ []) ok ((omega arith, b), tt),
            (n, ground (arith, length-append r.sent ((t ∷ ts) ∷ []))),
          ),
        ),
        refl,
      )

  add_link-IsReport :
      (ls : List Text) (t : Text) (r : Report)
      → length r.chunk < chunk_size
      → IsReport ls r
      → IsReport (ls ++ (t ∷ [])) (add_link delivers t r)
        × (length (add_link delivers t r).chunk < chunk_size)
  unfolding add_link flush_chunk
  add_link-IsReport ls t r b (all, (ok, (n, d))) =
      let more : Report = record r {
        succeeded_count = r.succeeded_count + 1;
        chunk = r.chunk ++ (t ∷ []);
      } in
      let grown = length-append r.chunk (t ∷ []) in
      let kept : IsReport (ls ++ (t ∷ [])) more = (
        sym (append_assoc (concat r.sent) r.chunk (t ∷ [])) ∙ ap (λ x. x ++ (t ∷ [])) all,
        (ok, (omega (arith, n, length-append ls (t ∷ [])), d)),
      ) in
      elim (Bool-cases (leb chunk_size (length more.chunk))) [
        | inl e ↦
            let f =
              flush_links-IsReport (ls ++ (t ∷ [])) more more.chunk refl (omega (arith, grown, b))
                kept in
            rw e (f.0, omega (arith, ap length f.1))
        | inr e ↦ rw e (kept, leb-false→lt chunk_size (length more.chunk) e)
      ]

  report_from-IsReport :
      (ls : List Text) (bs : List BatchResult) (r : Report)
      → length r.chunk < chunk_size
      → IsReport ls r
      → IsReport (ls ++ links bs) (report_from delivers bs r)
        × (length (report_from delivers bs r).chunk < chunk_size)
  unfolding report_from report_one links
  report_from-IsReport ls [] r b h = (subst (λ x. IsReport x r) (sym (append-nil ls)) h, b)
  report_from-IsReport ls (untouched ∷ bs) r b h = report_from-IsReport ls bs r b h
  report_from-IsReport ls (skipped ∷ bs) r b h = report_from-IsReport ls bs _ b h
  report_from-IsReport ls (failed ∷ bs) r b h = report_from-IsReport ls bs _ b h
  report_from-IsReport ls (succeeded t ∷ bs) r b h =
      let k = add_link-IsReport ls t r b h in
      let rest = report_from-IsReport (ls ++ (t ∷ [])) bs _ k.1 k.0 in
      subst
        (λ x.
          IsReport x (report_from delivers bs (add_link delivers t r))
          × (length (report_from delivers bs (add_link delivers t r)).chunk < chunk_size))
        (append_assoc ls (t ∷ []) (links bs)) rest

  -- The messages of a batch, one after the other, hold the links of all the results in the order of
  -- the results, none is empty or has more than ten, the number reported is the number of links, and
  -- no more private messages are reported to have failed than were sent.
  pub report-links :
      (bs : List BatchResult)
      → (concat (report delivers bs).sent ≡ links bs)
        × (All IsChunk (report delivers bs).sent
            × (((report delivers bs).succeeded_count ≡ length (links bs))
                × ((report delivers bs).dm_failed ≤ length (report delivers bs).sent)))
  unfolding report flush_chunk
  report-links bs =
      let start : Report = record {
        succeeded_count = 0;
        skipped_count = 0;
        failed_count = 0;
        dm_failed = 0;
        chunk = [];
        sent = [];
      } in
      let r = report_from delivers bs start in
      let h =
        report_from-IsReport [] bs start (omega arith)
          (unfold concat in (refl, (tt, (refl, omega arith)))) in
      let f = flush_links-IsReport (links bs) r r.chunk refl (omega (arith, h.1)) h.0 in
      (
        sym (append-nil _)
            ∙ (ap (λ x. concat (flush_links delivers r r.chunk).sent ++ x) (sym f.1) ∙ f.0.0),
        f.0.1,
      )
