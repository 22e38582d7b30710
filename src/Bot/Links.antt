-- ===== src/Bot/Links.antt =====
-- internal/bot/handlers_link.go: `/link`, its arguments, and the report of a batch. The workers write
-- their results to an index each, so the list of results is in the order of the messages; what a
-- link's text is, and whether a private message is delivered, are parameters.
pub mod Chunks
pub mod Asked
use thunder_go.Prelude.{
  ℕ, zero, suc, ◌+◌, ◌-◌, ◌*◌, ◌/◌, ◌%◌, ◌^◌, ◌≤◌, ◌<◌, min, max, ◌≡◌, refl, sym, ap, ◌∙◌, subst,
  ◌≢◌, ◌↔◌, ◌⊎◌, inl, inr, Bool, true, false, not, ◌&&◌, ◌||◌, Option, none, some, List, [], ◌∷◌,
  ◌++◌, map, append-nil, append_assoc, arith, length, get_elem?, set, take, drop, length-append,
  length-take, length-drop, All, All-append, All-map, All_at, get_elem?-append,
  get_elem?-append_length, ltb, leb, ◌==◌, if◌then◌else◌, tests, leb→le, le→leb, leb-false→lt,
  ltb→lt, lt→ltb, ltb-false→le, Bool-cases, Option-cases,
}
use thunder_go.Ingest.{Result, file, error}
use thunder_go.Prelude.Int.{ℤ, pos, ltb_ℤ}
use thunder_go.Prelude.Text.{Text, is_empty, trim_space}
use thunder_go.Prelude.Text.Decimal.{parse_int}
use thunder_go.Store.{FileRecord}

pub data LinkAction : Type 0 where
  usage_group not_admin usage_reply usage_number usage_range single : LinkAction
  batch : ℤ → LinkAction

of_count : ℤ → Option ℤ → LinkAction
of_count batch_cap none = usage_number
of_count batch_cap (some n) =
    if ltb_ℤ n (pos 1) || ltb_ℤ batch_cap n
    then usage_range
    else if ltb_ℤ (pos 1) n
    then batch n
    else single

-- Whether the chat is private, whether the bot is an administrator, whether the message is a reply.
unfoldable pub handle_link : ℤ → Bool → Bool → Bool → Text → LinkAction
unfolding of_count is_empty trim_space
handle_link batch_cap is_private is_admin is_reply args =
    if is_private
    then usage_group
    else if not is_admin
    then not_admin
    else if not is_reply
    then usage_reply
    else if is_empty args
    then single
    else of_count batch_cap (parse_int (trim_space args))

-- What a worker writes; a message that no worker has come to when the time is over has none.
pub data BatchResult : Type 0 where
  untouched skipped failed : BatchResult
  succeeded : Text → BatchResult

unfoldable pub result_of : (FileRecord → Bool → Text) → Bool → Result → BatchResult
result_of text_of false r = skipped
result_of text_of true (error e) = failed
result_of text_of true (file rec reused) = succeeded (text_of rec reused)

abbrev pub chunk_size : ℕ
chunk_size = 10

-- The counts, the links that wait, the messages sent, and how many of them did not reach the sender.
pub record Report : Type 0 where
  pub succeeded_count : ℕ
  pub skipped_count : ℕ
  pub failed_count : ℕ
  pub dm_failed : ℕ
  pub chunk : List Text
  pub sent : List (List Text)

module _ (delivers : List Text → Bool) where
  flush_links : Report → List Text → Report
  flush_links r [] = r
  flush_links r (t ∷ ts) = record r {
    chunk = [];
    sent = r.sent ++ ((t ∷ ts) ∷ []);
    dm_failed = if delivers (t ∷ ts) then r.dm_failed else r.dm_failed + 1;
  }

  flush_chunk : Report → Report
  unfolding flush_links
  flush_chunk r = flush_links r r.chunk

  add_link : Text → Report → Report
  unfolding flush_chunk
  add_link t r =
      let more = record r {
        succeeded_count = r.succeeded_count + 1;
        chunk = r.chunk ++ (t ∷ []);
      } in
      if leb chunk_size (length more.chunk) then flush_chunk more else more

  report_one : BatchResult → Report → Report
  unfolding add_link
  report_one untouched r = r
  report_one skipped r = record r { skipped_count = r.skipped_count + 1 }
  report_one failed r = record r { failed_count = r.failed_count + 1 }
  report_one (succeeded t) r = add_link t r

  report_from : List BatchResult → Report → Report
  unfolding report_one
  report_from [] r = r
  report_from (b ∷ bs) r = report_from bs (report_one b r)

  -- The loop over the results, and the last chunk.
  unfoldable pub report : List BatchResult → Report
  unfolding report_from flush_chunk
  report results = flush_chunk (
      report_from results (record {
        succeeded_count = 0;
        skipped_count = 0;
        failed_count = 0;
        dm_failed = 0;
        chunk = [];
        sent = [];
      }))
