-- ===== src/Bridge/Handshake.antt =====
-- The two sides of a bridge understand each other's lines.
use localsend_rs.Base.{
  ℕ, suc, zero, ◌≤◌, ◌<◌, ◌≡◌, refl, ap, false, List, [], ◌∷◌, ◌++◌, All, arith, take, length,
  length-append, append_assoc, append-nil,
}
use localsend_rs.Base.Text.{is_space, push_word, words_from, first_line}
use localsend_rs.TurnServer.State.{ascii}
use localsend_rs.Bridge.Commands.{
  listen, connect, command_of, read_command, listen_header, connect_header,
}

abbrev pub NoSpace : List ℕ → Type 0
NoSpace = All (λ c. is_space c ≡ false)

words_from-NoSpace :
    (word text : List ℕ) → NoSpace text → words_from word text ≡ push_word (word ++ text) []
unfolding words_from
words_from-NoSpace word [] h = rw (append-nil word)
words_from-NoSpace word (c ∷ cs) (plain, h) =
    ground (arith, plain, words_from-NoSpace (word ++ c ∷ []) cs h, append_assoc word (c ∷ []) cs)

first_line-NoSpace : (text : List ℕ) → NoSpace text → first_line (text ++ 10 ∷ []) ≡ text
unfolding first_line is_space
first_line-NoSpace [] h = refl
first_line-NoSpace (c ∷ cs) (plain, h) = ground (arith, first_line-NoSpace cs h)

take_all : (n : ℕ) (xs : List ℕ) → length xs ≤ n → take n xs ≡ xs
take_all zero [] h = refl
take_all zero (x ∷ xs) h = absurd (omega arith)
take_all (suc n) [] h = refl
take_all (suc n) (x ∷ xs) h = ap (λ l. x ∷ l) (take_all n xs (omega arith))

words_from-line :
    (n : ℕ) (text : List ℕ)
    → NoSpace text
    → length text < n
    → words_from [] (first_line (take n (text ++ 10 ∷ []))) ≡ push_word text []
words_from-line n text plain fits =
    let whole : take n (text ++ 10 ∷ []) ≡ text ++ 10 ∷ [] =
      take_all n (text ++ 10 ∷ []) (omega (arith, length-append text (10 ∷ []))) in
    rw (whole, first_line-NoSpace text plain) (words_from-NoSpace [] text plain)

-- The relay reads the lines that the two clients send as the commands they stand for, with their
-- fingerprint. The fingerprint is not empty, has no white space, and at most 200 characters.
pub read_command-headers :
    (c : ℕ) (cs : List ℕ)
    → NoSpace (c ∷ cs)
    → length (c ∷ cs) ≤ 200
    → (read_command (connect_header (c ∷ cs)) ≡ connect (c ∷ cs))
      × (read_command (listen_header (c ∷ cs)) ≡ listen (c ∷ cs))
unfolding read_command command_of connect_header listen_header
read_command-headers c cs plain short = (
  ap (λ ws. command_of (ascii "BRIDGE" ∷ ascii "CONNECT" ∷ ws))
      (words_from-line 241 (c ∷ cs) plain (omega arith)),
  ap (λ ws. command_of (ascii "BRIDGE" ∷ ascii "LISTEN" ∷ ws))
      (words_from-line 242 (c ∷ cs) plain (omega arith)),
)
