-- ===== src/PortSet/Examples.antt =====
-- Tests of the port sets, and the theorems at concrete inputs.
use yz_agent.PortSet.Print.{digits, print_range, parse-print_range}
use yz_agent.Prelude.{ℕ, ◌≡◌, refl, List, [], ◌∷◌, All}
use yz_agent.PortSet.{Range, merge, without, covers}
use yz_agent.PortSet.Parse.{ok, err, reversed, empty_item, parse}
use yz_agent.PortSet.Cover.{covers-merge}
use yz_agent.PortSet.Canonical.{IsApart}
use yz_agent.PortSet.Accept.{IsValid, parse_sound}

abbrev hops : List Range
hops =
    record { from = 300; to = 400 }
    ∷ record { from = 20; to = 25 }
    ∷ record { from = 26; to = 30 }
    ∷ []

merge_runs : merge hops ≡ record { from = 20; to = 30 } ∷ record { from = 300; to = 400 } ∷ []
unfolding merge
merge_runs = refl

without_runs :
    without hops 300
    ≡ record { from = 301; to = 400 }
      ∷ record { from = 20; to = 25 }
      ∷ record { from = 26; to = 30 }
      ∷ []
unfolding without
without_runs = refl

-- " 443,20000-20100"
abbrev text : List ℕ
text =
    32 ∷ b'4' ∷ b'4' ∷ b'3' ∷ b',' ∷ b'2' ∷ b'0' ∷ b'0' ∷ b'0' ∷ b'0' ∷ b'-' ∷ b'2' ∷ b'0' ∷ b'1'
    ∷ b'0' ∷ b'0' ∷ []

parse_runs :
    parse text ≡ ok (record { from = 443; to = 443 } ∷ record { from = 20000; to = 20100 } ∷ [])
unfolding parse merge
parse_runs = refl

parse_reversed : parse (b'9' ∷ b'-' ∷ b'1' ∷ []) ≡ err reversed
unfolding parse
parse_reversed = refl

parse_empty : parse [] ≡ err empty_item
unfolding parse
parse_empty = refl

covers-merge_example : covers (merge hops) 26 ≡ covers hops 26
covers-merge_example = covers-merge hops 26

parse_sound_example :
    All IsValid (record { from = 443; to = 443 } ∷ record { from = 20000; to = 20100 } ∷ [])
    × IsApart 0 (record { from = 443; to = 443 } ∷ record { from = 20000; to = 20100 } ∷ [])
parse_sound_example = parse_sound text _ parse_runs

print_runs : print_range (record { from = 443; to = 443 }) ≡ b'4' ∷ b'4' ∷ b'3' ∷ []
unfolding print_range digits
print_runs = refl

parse-print_range_example :
    parse (print_range (record { from = 20000; to = 20100 }))
    ≡ ok (record { from = 20000; to = 20100 } ∷ [])
parse-print_range_example = parse-print_range (record { from = 20000; to = 20100 }) refl
