-- ===== src/Find/Packet/Parsing.antt =====
-- The loop over the parameters of a FIND packet: what it accepts, and that its fuel is enough.
use arinc_615a_cli_tool_suit.Base.{
  All, List, Option-cases, Result, [], ap, append-nil, append_assoc, arith, drop,
  drop-append_behind, err, find, find_first, find_sound, inl, inr, length, length-append,
  length-drop, none, ok, ok_injective, refl, some, suc, sym, take, take-append, terminator_missing,
  zero, ℕ, ◌++◌, ◌∙◌, ◌∷◌, ◌≡◌, ◌≤◌,
}
use arinc_615a_cli_tool_suit.Files.Strings.Wire.{IsText}
use arinc_615a_cli_tool_suit.Find.Packet.{append_parameters, parse_parameters, string_terminator}

-- The parameters with their terminators.
abbrev pub terminated : List (List ℕ) → List ℕ
terminated [] = []
terminated (p ∷ parameters) = p ++ string_terminator ∷ terminated parameters

pub append_parameters-terminated :
    (parameters : List (List ℕ)) (raw_packet : List ℕ)
    → append_parameters parameters raw_packet ≡ raw_packet ++ terminated parameters
unfolding append_parameters
append_parameters-terminated [] raw_packet = rw append-nil
append_parameters-terminated (p ∷ parameters) raw_packet =
    append_parameters-terminated parameters _
    ∙ rw (append_assoc (raw_packet ++ p) (string_terminator ∷ []) (terminated parameters))
        (append_assoc raw_packet p (string_terminator ∷ terminated parameters))

-- A text that does not end in the terminator.
pub record Unfinished (text : List ℕ) : Type 0 where
  pub parsed : List (List ℕ)
  pub first : ℕ
  pub rest : List ℕ
  pub split : text ≡ terminated parsed ++ first ∷ rest
  pub no_terminator : find string_terminator (first ∷ rest) ≡ none

-- The outcome of the loop.
pub data Parsed (text : List ℕ) (before : List (List ℕ)) (r : Result (List (List ℕ))) : Type 0 where
  parses :
      (parameters : List (List ℕ))
      → text ≡ terminated parameters
      → All IsText parameters
      → r ≡ ok (before ++ parameters)
      → Parsed text before r
  stops : Unfinished text → r ≡ err terminator_missing → Parsed text before r

-- One more parameter in front.
Parsed-cons :
    (text rest p : List ℕ) (before : List (List ℕ)) (r : Result (List (List ℕ)))
    → text ≡ p ++ string_terminator ∷ rest
    → IsText p
    → Parsed rest (before ++ p ∷ []) r
    → Parsed text before r
Parsed-cons text rest p before r e t (parses parameters s ts h) =
    parses (p ∷ parameters) (e ∙ ap (λ l. p ++ string_terminator ∷ l) s) (t, ts)
      (h ∙ ap ok (append_assoc before (p ∷ []) parameters))
Parsed-cons text rest p before r e t (stops u h) =
    stops
      (record {
        parsed = p ∷ u.parsed;
        first = u.first;
        rest = u.rest;
        split =
            e
            ∙ ap (λ l. p ++ string_terminator ∷ l) u.split
            ∙ sym (append_assoc p (string_terminator ∷ terminated u.parsed) (u.first ∷ u.rest));
        no_terminator = u.no_terminator;
      })
      h

parse_none :
    (fuel c : ℕ) (text : List ℕ) (before : List (List ℕ))
    → find string_terminator (c ∷ text) ≡ none
    → parse_parameters (suc fuel) (c ∷ text) before ≡ err terminator_missing
unfolding parse_parameters
parse_none fuel c text before e = rw (parse_parameters, e) refl

parse_some :
    (fuel c n : ℕ) (text : List ℕ) (before : List (List ℕ))
    → find string_terminator (c ∷ text) ≡ some n
    → parse_parameters (suc fuel) (c ∷ text) before
      ≡ parse_parameters fuel (drop (suc n) (c ∷ text)) (before ++ take n (c ∷ text) ∷ [])
unfolding parse_parameters
parse_some fuel c n text before e = rw (parse_parameters, e) refl

-- With fuel of at least the length of the text the loop ends in one of two ways: the text is a sequence of
-- terminated parameters and these are appended, or the last parameter has no terminator.
pub parse_parameters-Parsed :
    (fuel : ℕ) (text : List ℕ) (before : List (List ℕ))
    → length text ≤ fuel
    → Parsed text before (parse_parameters fuel text before)
unfolding parse_parameters
parse_parameters-Parsed fuel [] before h =
    parses [] refl tt (rw (parse_parameters, append-nil) refl)
parse_parameters-Parsed zero (c ∷ text) before h = absurd (omega arith)
parse_parameters-Parsed (suc fuel) (c ∷ text) before h =
    elim (Option-cases (find string_terminator (c ∷ text))) [
      | inl e ↦
          stops (record { parsed = []; first = c; rest = text; split = refl; no_terminator = e })
            (parse_none fuel c text before e)
      | inr (n, e) ↦
          let (clean, split, short) = find_sound string_terminator (c ∷ text) n e in
          rw (parse_some fuel c n text before e) (
            Parsed-cons (c ∷ text) (drop (suc n) (c ∷ text)) (take n (c ∷ text)) before _ split
              clean
              (parse_parameters-Parsed fuel (drop (suc n) (c ∷ text)) _
                (omega (arith, length-drop n text))))
    ]

parse_parameter :
    (fuel : ℕ) (p rest : List ℕ) (before : List (List ℕ))
    → IsText p
    → parse_parameters (suc fuel) (p ++ string_terminator ∷ rest) before
      ≡ parse_parameters fuel rest (before ++ p ∷ [])
parse_parameter fuel [] rest before t = parse_some fuel 0 0 rest before (find_first 0 [] rest t)
parse_parameter fuel (c ∷ p) rest before t =
    parse_some fuel c (suc (length p)) (p ++ 0 ∷ rest) before (find_first 0 (c ∷ p) rest t)
    ∙ rw (take-append p (0 ∷ rest), drop-append_behind 0 p rest) refl

-- Terminated parameters are parsed.
pub parse_parameters-terminated :
    (fuel : ℕ) (parameters before : List (List ℕ))
    → All IsText parameters
    → length (terminated parameters) ≤ fuel
    → parse_parameters fuel (terminated parameters) before ≡ ok (before ++ parameters)
unfolding parse_parameters
parse_parameters-terminated fuel [] before t h = rw (parse_parameters, append-nil) refl
parse_parameters-terminated zero (p ∷ parameters) before t h =
    absurd (omega (arith, length-append p (string_terminator ∷ terminated parameters)))
parse_parameters-terminated (suc fuel) (p ∷ parameters) before t h =
    parse_parameter fuel p (terminated parameters) before t.0
    ∙ parse_parameters-terminated fuel parameters (before ++ p ∷ []) t.1
        (omega (arith, length-append p (string_terminator ∷ terminated parameters)))
    ∙ ap ok (append_assoc before (p ∷ []) parameters)

-- What the loop appends, where it ends normally.
pub Parsed-ok :
    (text : List ℕ) (r : Result (List (List ℕ))) (parameters : List (List ℕ))
    → Parsed text [] r
    → r ≡ ok parameters
    → (text ≡ terminated parameters) × All IsText parameters
Parsed-ok text r parameters (parses ps s ts h) e =
    let same : ps ≡ parameters = ok_injective (sym h ∙ e) in rw (← same) (s, ts)
Parsed-ok text r parameters (stops u h) e = cc
