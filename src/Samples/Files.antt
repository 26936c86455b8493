-- ===== src/Samples/Files.antt =====
-- Samples for .env files.
use mylobsterpp.Prelude.{
  ◌≡◌, refl, true, false, none, some, [], ◌∷◌, ◌++◌, Text, codes, Map, lookup,
}
use mylobsterpp.Infra.Dotenv.{parse_quoted_value, parse, load}
use mylobsterpp.Infra.Dotenv.RoundTrip.{quoted, parse_quoted_value-quoted}
use mylobsterpp.Infra.Dotenv.Loading.{preferred, load-lookup}

parse_quoted_value-quoted_example :
    parse_quoted_value (quoted (codes "a\"b\\c") ++ codes " # end") b'"' ≡ codes "a\"b\\c"
parse_quoted_value-quoted_example = parse_quoted_value-quoted (codes "a\"b\\c") (codes " # end")

abbrev file : Text
file = codes "export A=1 # one\nB = 'x y'\n"

abbrev environment : Map Text
environment = (codes "A", codes "0") ∷ []

-- Both lines are read.
file-parse : parse (some file) ≡ (codes "A", codes "1") ∷ (codes "B", codes "x y") ∷ []
unfolding parse mylobsterpp.Prelude.assign mylobsterpp.Prelude.text_eq
file-parse = refl

load-lookup_example :
    lookup (codes "A") (load (some file) false environment)
    ≡ preferred false (lookup (codes "A") (parse (some file))) (lookup (codes "A") environment)
load-lookup_example = load-lookup (some file) false environment (codes "A")
