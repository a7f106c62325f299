-- ===== src/Armor/Expressions.antt =====
-- src/services/compute/armor/expression.ts: tokens and syntax trees of Cloud Armor's expressions. Positions in
-- the text are left out, and the `eof` token is the end of the list. A number is named by its text, from
-- which `Number.parseInt` or `Number.parseFloat` reads it.
pub mod Parser
pub mod Printer
pub mod Constraints
mod Steps
mod Levels
mod Operators
mod Sequences
mod Maps
mod RoundTrip
mod Measure
mod Fuel
mod MoreFuel
mod Tests
use kinglet.Base.{ℕ, String, Bool, true, false, Option, none, some, List, [], ◌∷◌, nat_beq}

pub data Comparison : Type 0 where
  eq ne lt gt le ge : Comparison

-- The tokens that have no value of their own.
pub data Mark : Type 0 where
  and_mark or_mark not_mark in_mark plus minus dot comma colon : Mark
  lparen rparen lbrack rbrack lbrace rbrace : Mark

pub data Token : Type 0 where
  ident_token : String → Token
  number_token : String → Token
  string_token : String → Token
  boolean_token : Bool → Token
  compare_token : Comparison → Token
  mark : Mark → Token

abbrev pub Tokens : Type 0
Tokens = List Token

pub data Literal : Type 0 where
  string_lit : String → Literal
  number : String → Literal
  boolean : Bool → Literal

pub data UnaryOp : Type 0 where
  bang negate : UnaryOp

pub data BinaryOp : Type 0 where
  or_op and_op add_op : BinaryOp
  compare : Comparison → BinaryOp

mutual
  pub data Ast : Type 0 where
    lit : Literal → Ast
    ident : String → Ast
    member : Ast → String → Ast
    index : Ast → Ast → Ast
    call : Ast → Asts → Ast
    unary : UnaryOp → Ast → Ast
    binary : BinaryOp → Ast → Ast → Ast
    list : Asts → Ast
    map_of : Entries → Ast

  pub data Asts : Type 0 where
    no_asts : Asts
    ast : Ast → Asts → Asts

  pub data Entries : Type 0 where
    no_entries : Entries
    entry : Ast → Ast → Entries → Entries

abbrev pub code : Mark → ℕ
code and_mark = 0
code or_mark = 1
code not_mark = 2
code in_mark = 3
code plus = 4
code minus = 5
code dot = 6
code comma = 7
code colon = 8
code lparen = 9
code rparen = 10
code lbrack = 11
code rbrack = 12
code lbrace = 13
code rbrace = 14

abbrev pub is_mark : Mark → Token → Bool
is_mark m (mark n) = nat_beq (code n) (code m)
is_mark m _ = false

-- `this.peek().kind === kind`
abbrev pub next_is : Mark → Tokens → Bool
next_is m [] = false
next_is m (t ∷ ts) = is_mark m t

-- `comparisonOp` of the next token.
abbrev pub comparison_op : Tokens → Option Comparison
comparison_op (compare_token c ∷ ts) = some c
comparison_op _ = none

pub data Failure : Type 0 where
  out_of_fuel undeclared_in : Failure
  unexpected expected_ident : Tokens → Failure
  expected : Mark → Tokens → Failure
