-- ===== src/Examples/Streaming.antt =====
-- A server with one client and one file.
use thunder_go.Prelude.{
  ℕ, ◌≡◌, refl, subst, inr, true, false, Option, none, some, [], ◌∷◌, arith, take, drop, ltb,
  if◌then◌else◌,
}
use thunder_go.Pool.{Pool, new_pool, acquire_best, pick}
use thunder_go.Prelude.Int.{pos}
use thunder_go.Prelude.Text.{Text, codes, is_empty}
use thunder_go.Store.{FileRecord}
use thunder_go.Stream.Body.{stream_range}
use thunder_go.Stream.Body.Front.{IsTruthful, IsFront, stream_range-IsFront}
use thunder_go.Stream.Body.Exact.{Serves, stream_range-exact}
use thunder_go.Stream.Serving.{Backend, Request, get, head, effective_range, serve_http}
use thunder_go.Stream.Serving.Deliver.{IsPart, serve_http-IsPart}
use thunder_go.Stream.Serving.Head.{IsIntact, front, with_method, serve_http-front}
use thunder_go.Stream.Serving.Tickets.{serve_http-pool}
use thunder_go.Stream.Vault.{
  found, media, Matches, resolve_vault_media, resolve_vault_media-media,
  resolve_vault_media-Matches,
}
use thunder_go.Tgutil.Media.{Message, Document, file_key, extract_size}
use thunder_go.Tgutil.Range.{Range, range, parse_range}
use thunder_go.Tgutil.Range.Header.{closed_header, parse_range-closed}

abbrev hello : Text
hello = codes "hello"

abbrev pub hello_record : FileRecord
hello_record = record {
  file_key = codes "key";
  hash = codes "abc";
  file_name = codes "hello.txt";
  mime_type = codes "text/plain";
  size = pos 5;
  media_type = codes "document";
  vault_msg_id = pos 7;
  dc_id = pos 2;
  created_at = 0;
  last_seen_at = 0;
  seen_count = pos 0;
  reuse_count = pos 0;
  first_source_chat_id = pos 0;
  first_source_msg_id = pos 0;
}

abbrev pub hello_document : Document
hello_document = record {
  id = pos 9;
  mime_type = codes "text/plain";
  size = pos 5;
  dc_id = pos 2;
  attributes = [];
}

abbrev pub hello_message : Message
hello_message = record {
  id = pos 7;
  present = true;
  is_media = true;
  has_media = true;
  document = some hello_document;
  photo = none;
  media_type = codes "document";
  video = false;
  audio = false;
  voice = false;
  animation = false;
  sticker = false;
  chat_id = pos 0;
  bot_file_id = codes "key";
}

abbrev hello_backend : Backend
hello_backend = record {
  find_file = λ token. some (some hello_record);
  has_ingester = true;
  lookup = λ client rec. found (hello_message ∷ []);
  fetch = λ client msg from to. some (take 5 (drop from hello));
  download = λ client msg. hello;
  accepts = λ n. none;
}

abbrev hello_request : Request
hello_request = record {
  token = codes "abc";
  method = get;
  range_header = closed_header 1 3;
  disposition = [];
}

abbrev hello_range : Range
hello_range = record { start = 1; end = 3 }

abbrev one_client : Pool
one_client = new_pool (pos 8) 1

hello-Matches : Matches hello_record hello_message
unfolding extract_size file_key is_empty
hello-Matches = (refl, refl, inr refl)

hello-resolved :
    resolve_vault_media true (found (hello_message ∷ [])) hello_record ≡ media hello_message
hello-resolved = resolve_vault_media-media hello_record hello_message [] refl refl hello-Matches

hello-Serves : Serves (hello_backend.fetch 0 hello_message) hello
hello-Serves from h = (4, refl)

hello_parsed : parse_range (closed_header 1 3) (pos 5) ≡ range hello_range
hello_parsed = parse_range-closed 1 3 4 (omega arith) (omega arith)

hello-free : (acquire_best one_client).0 ≡ some 0
unfolding acquire_best pick new_pool
hello-free = refl

hello-partial : effective_range (pos 5) hello_range ≡ some hello_range
unfolding effective_range
hello-partial = refl

hello_token : is_empty (codes "abc") ≡ false
unfolding is_empty
hello_token = refl

serve_http-IsPart_example :
    IsPart hello_range hello (serve_http hello_backend hello_request one_client).response
serve_http-IsPart_example =
    serve_http-IsPart hello_backend hello_request hello_record 0 hello_message hello hello_range
      (λ n. refl) hello-Serves refl (omega arith) hello-resolved refl hello_parsed hello-partial
      one_client hello_token refl hello-free

stream_range-exact_example :
    stream_range (hello_backend.fetch 0 hello_message) (λ n. none) 3 1 ≡ codes "ell"
stream_range-exact_example =
    stream_range-exact (hello_backend.fetch 0 hello_message) (λ n. none) 3 hello hello-Serves
      (λ n. refl) (omega arith) 1 (omega arith)

serve_http-pool_example : (serve_http hello_backend hello_request one_client).pool ≡ one_client
serve_http-pool_example = serve_http-pool hello_backend hello_request one_client

hello-IsIntact : IsIntact hello_backend (codes "abc")
hello-IsIntact client rec f positive =
    let same : hello_record ≡ rec = cc f in
    (
      hello_message,
      subst (λ x. resolve_vault_media true (found (hello_message ∷ [])) x ≡ media hello_message)
          same hello-resolved,
    )

serve_http-front_example :
    front (serve_http hello_backend (with_method head hello_request) one_client).response
    ≡ front (serve_http hello_backend (with_method get hello_request) one_client).response
serve_http-front_example = serve_http-front hello_backend hello_request hello-IsIntact one_client

resolve_vault_media-Matches_example : Matches hello_record hello_message
resolve_vault_media-Matches_example =
    resolve_vault_media-Matches true (found (hello_message ∷ [])) hello_record hello_message
      hello-resolved

-- Chunks of two bytes.
abbrev short_fetch : ℕ → ℕ → Option Text
short_fetch from to = some (take 2 (drop from hello))

short-IsTruthful : IsTruthful short_fetch hello
short-IsTruthful from raw f = (2, cc f)

stream_range-IsFront_example :
    IsFront
      (λ n. if ltb n 2 then none else some 1)
      4
      hello
      4
      1
      (stream_range short_fetch (λ n. if ltb n 2 then none else some 1) 4 1)
stream_range-IsFront_example =
    stream_range-IsFront short_fetch (λ n. if ltb n 2 then none else some 1) 4 hello
      short-IsTruthful 1
