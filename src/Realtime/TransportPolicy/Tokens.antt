-- ===== src/Realtime/TransportPolicy/Tokens.antt =====
-- The allowlist holds what the pieces between its commas say.
use dynaxis.Base.{
  ℕ, ◌≡◌, refl, ap, ◌∙◌, Bool, false, ◌||◌, List, [], ◌∷◌, ◌++◌, Option, none, some, arith, ◌==◌,
  contains, Bool-cases, inl, inr, ==_iff,
}
use dynaxis.Realtime.TransportPolicy.{
  comma, parse_u16_token, pieces, insert, parse_pieces, parse_direct_opcode_allowlist,
}

abbrev pub join : List ℕ → List (List ℕ) → List ℕ
join t [] = t
join t (u ∷ us) = t ++ comma ∷ join u us

abbrev pub says : Option ℕ → ℕ → Bool
says none opcode = false
says (some n) opcode = n == opcode

abbrev pub any_says : List (List ℕ) → ℕ → Bool
any_says [] opcode = false
any_says (t ∷ ts) opcode = says (parse_u16_token t) opcode || any_says ts opcode

abbrev pub Clean : List ℕ → Type 0
Clean t = contains t comma ≡ false

abbrev pub AllClean : List (List ℕ) → Type 0
AllClean [] = Unit
AllClean (t ∷ ts) = Clean t × AllClean ts

pieces-append : (t rest : List ℕ) → Clean t → pieces (t ++ comma ∷ rest) ≡ t ∷ pieces rest
unfolding pieces
pieces-append [] rest h = refl
pieces-append (c ∷ cs) rest h = ground (arith, h, pieces-append cs rest)

pieces_clean : (t : List ℕ) → Clean t → pieces t ≡ t ∷ []
unfolding pieces
pieces_clean [] h = refl
pieces_clean (c ∷ cs) h = ground (arith, h, pieces_clean cs)

pieces-join :
    (t : List ℕ) (ts : List (List ℕ)) → Clean t → AllClean ts → pieces (join t ts) ≡ t ∷ ts
pieces-join t [] h hs = pieces_clean t h
pieces-join t (u ∷ us) h hs =
    pieces-append t (join u us) h ∙ ap (λ l. t ∷ l) (pieces-join u us hs.0 hs.1)

contains_end :
    (xs : List ℕ) (n opcode : ℕ)
    → contains (xs ++ n ∷ []) opcode ≡ (contains xs opcode || n == opcode)
contains_end [] n opcode = ground arith
contains_end (x ∷ xs) n opcode = ground (arith, contains_end xs n opcode)

contains-insert :
    (out : List ℕ) (o : Option ℕ) (opcode : ℕ)
    → contains (insert out o) opcode ≡ (contains out opcode || says o opcode)
contains-insert out none opcode = ground arith
contains-insert out (some n) opcode = elim (Bool-cases (n == opcode)) [
  | inl same ↦
      let k = ap (contains out) ((==_iff n opcode).0 same) in
      ground (arith, same, k, contains_end out n opcode)
  | inr differs ↦ ground (arith, differs, contains_end out n opcode)
]

contains-parse_pieces :
    (out : List ℕ) (ts : List (List ℕ)) (opcode : ℕ)
    → contains (parse_pieces out ts) opcode ≡ (contains out opcode || any_says ts opcode)
unfolding parse_pieces
contains-parse_pieces out [] opcode = ground arith
contains-parse_pieces out (t ∷ ts) opcode = ground (
  arith,
  contains-parse_pieces (insert out (parse_u16_token t)) ts opcode,
  contains-insert out (parse_u16_token t) opcode,
)

-- Where pieces without commas are joined by commas, an opcode is allowed exactly if one of the
-- pieces reads as it: pieces that read as no number are skipped, and spoil no other.
pub contains-parse_direct_opcode_allowlist :
    (t : List ℕ) (ts : List (List ℕ)) (opcode : ℕ)
    → Clean t
    → AllClean ts
    → contains (parse_direct_opcode_allowlist (join t ts)) opcode ≡ any_says (t ∷ ts) opcode
unfolding parse_direct_opcode_allowlist
contains-parse_direct_opcode_allowlist t ts opcode h hs =
    ap (λ l. contains (parse_pieces [] l) opcode) (pieces-join t ts h hs)
    ∙ contains-parse_pieces [] (t ∷ ts) opcode
