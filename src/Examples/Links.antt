-- ===== src/Examples/Links.antt =====
-- A shortener with an empty cache, and a service that answers.
use thunder_go.Prelude.{true, none, some, []}
use thunder_go.Prelude.Text.{codes}
use thunder_go.Shortener.{Shortener, Web, shorten}
use thunder_go.Shortener.Safe.{Fine, shorten-IsSafe}

abbrev pub answering : Web
answering = record {
  parses = λ u. true;
  hostname = λ u. codes "s.example";
  query_escape = λ u. u;
  unmarshal = λ body. none;
  fetch = λ url authorization. some (200, some (codes "https://s.example/x"));
}

abbrev fresh_shortener : Shortener
fresh_shortener = record {
  api_key = codes "key";
  site = codes "https://s.example";
  cache = record { cap = 10000; order = [] };
}

shorten-IsSafe_example :
    Fine answering fresh_shortener
      (codes "https://bot.example/f/a/b")
      (shorten answering fresh_shortener (codes "https://bot.example/f/a/b"))
shorten-IsSafe_example =
    shorten-IsSafe answering fresh_shortener (codes "https://bot.example/f/a/b") tt
