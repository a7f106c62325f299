-- ===== src/Armor/Expressions/Printer.antt =====
-- Syntax trees of Cloud Armor's expressions written as tokens, with the parentheses that the precedences and
-- the associativity of the operators need, and the keys of maps
-- need, and no others: the levels 1 to 7 are those of `parseOr`, `parseAnd`,
-- `parseComparison`, `parseAdd`, `parseUnary`, `parsePostfix` and `parsePrimary`.
use kinglet.Base.{ℕ, Bool, true, false, [], ◌∷◌, ◌++◌, leb, if◌then◌else◌}
use kinglet.Armor.Expressions.{
  Token, Tokens, Literal, UnaryOp, Ast, Asts, Entries, ident_token, number_token, string_token,
  boolean_token, compare_token, mark, and_mark, or_mark, not_mark, plus, minus, dot, comma, colon,
  lparen, rparen, lbrack, rbrack, lbrace, rbrace, string_lit, number, boolean, bang, negate, or_op,
  and_op, add_op, compare, lit, ident, member, index, call, unary, binary, list, map_of, no_asts,
  ast, no_entries, entry,
}

abbrev pub literal_token : Literal → Token
literal_token (string_lit s) = string_token s
literal_token (number n) = number_token n
literal_token (boolean b) = boolean_token b

abbrev pub unary_token : UnaryOp → Token
unary_token bang = mark not_mark
unary_token negate = mark minus

abbrev pub level_of : Ast → ℕ
level_of (lit l) = 7
level_of (ident name) = 7
level_of (member object name) = 6
level_of (index object key) = 6
level_of (call callee args) = 6
level_of (unary op arg) = 5
level_of (binary or_op left right) = 1
level_of (binary and_op left right) = 2
level_of (binary add_op left right) = 4
level_of (binary (compare c) left right) = 3
level_of (list elements) = 7
level_of (map_of es) = 7

abbrev pub in_parens : Tokens → Tokens
in_parens ts = mark lparen ∷ (ts ++ mark rparen ∷ [])

-- A tree where a tree of a level is due: in parentheses, if its own level is lower.
abbrev pub guarded : ℕ → ℕ → Tokens → Tokens
guarded n level ts = if leb n level then ts else in_parens ts

-- The tokens begin with a name or a text, which a map would read as the whole key.
abbrev pub starts_key : Tokens → Bool
starts_key (ident_token name ∷ ts) = true
starts_key (string_token s ∷ ts) = true
starts_key _ = false

-- A key that is a text is written as the text. Any other is in parentheses exactly if it begins with a name or a
-- text: bare, that name or text would be read as the key.
abbrev pub show_key : Ast → Tokens → Tokens
show_key (lit (string_lit s)) ts = string_token s ∷ []
show_key e ts = if starts_key ts then in_parens ts else ts

unfoldable mutual
  pub show : Ast → Tokens
  show (lit l) = literal_token l ∷ []
  show (ident name) = ident_token name ∷ []
  show (member object name) =
      guarded 6 (level_of object) (show object) ++ mark dot ∷ ident_token name ∷ []
  show (index object key) =
      guarded 6 (level_of object) (show object) ++ mark lbrack ∷ (show key ++ mark rbrack ∷ [])
  show (call callee args) =
      guarded 6 (level_of callee) (show callee)
      ++ mark lparen ∷ (show_elements args ++ mark rparen ∷ [])
  show (unary op arg) = unary_token op ∷ guarded 5 (level_of arg) (show arg)
  show (binary or_op left right) =
      show left ++ mark or_mark ∷ guarded 2 (level_of right) (show right)
  show (binary and_op left right) =
      guarded 2 (level_of left) (show left)
      ++ mark and_mark ∷ guarded 3 (level_of right) (show right)
  show (binary add_op left right) =
      guarded 4 (level_of left) (show left) ++ mark plus ∷ guarded 5 (level_of right) (show right)
  show (binary (compare c) left right) =
      guarded 4 (level_of left) (show left)
      ++ compare_token c ∷ guarded 4 (level_of right) (show right)
  show (list elements) = mark lbrack ∷ (show_elements elements ++ mark rbrack ∷ [])
  show (map_of es) = mark lbrace ∷ (show_entries es ++ mark rbrace ∷ [])

  -- The elements between their commas.
  pub show_elements : Asts → Tokens
  show_elements no_asts = []
  show_elements (ast e more) = show e ++ show_more more

  pub show_more : Asts → Tokens
  show_more no_asts = []
  show_more (ast e more) = mark comma ∷ (show e ++ show_more more)

  pub show_entries : Entries → Tokens
  show_entries no_entries = []
  show_entries (entry key value more) =
      show_key key (show key) ++ mark colon ∷ (show value ++ show_more_entries more)

  pub show_more_entries : Entries → Tokens
  show_more_entries no_entries = []
  show_more_entries (entry key value more) =
      mark comma ∷ (show_key key (show key) ++ mark colon ∷ (show value ++ show_more_entries more))
