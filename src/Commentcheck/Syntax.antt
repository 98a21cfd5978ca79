-- ===== src/Commentcheck/Syntax.antt =====
-- The part of go/ast that tools/commentcheck looks at. A comment group is known by its number, which
-- stands for the pointer to it; a nil group is `none`. Positions are those of go/token.
use herrscher_transport.Prelude.{ℕ, Bool, Option, List}
use herrscher_transport.Commentcheck.Text.{Text}

-- ast.Comment
pub record Comment : Type 0 where
  pub slash : ℕ
  pub text : Text

-- ast.CommentGroup, with its Pos and End
pub record Group : Type 0 where
  pub id : ℕ
  pub lines : List Comment
  pub start : ℕ
  pub stop : ℕ

-- ast.Expr, as far as a type is written with it.
mutual
  pub data Expr : Type 0 where
    ident : Text → Expr
    selector : (sel : Text) → Expr
    star : Expr → Expr
    index : Expr → Expr
    index_list : Expr → Expr
    struct_type : Fields → Expr
    interface_type : Fields → Expr
    array_type : (elt : Expr) → Expr
    map_type : (key value : Expr) → Expr
    chan_type : (value : Expr) → Expr
    other_expr : Expr

  -- ast.FieldList: each field with its Doc, Names and Type
  pub data Fields : Type 0 where
    no_fields : Fields
    field : (doc : Option ℕ) → (names : List Text) → (type : Expr) → Fields → Fields

-- ast.Spec
pub data Spec : Type 0 where
  type_spec : (doc : Option ℕ) → (name : Text) → (type : Expr) → Spec
  value_spec : (doc : Option ℕ) → (names : List Text) → (type : Option Expr) → Spec
  other_spec : Spec

-- ast.BlockStmt
pub record Block : Type 0 where
  pub lbrace : ℕ
  pub rbrace : ℕ

-- ast.FuncDecl; `recv` has the types of the receivers.
pub record FuncDecl : Type 0 where
  pub doc : Option ℕ
  pub name : Text
  pub recv : Option (List Expr)
  pub params : ℕ
  pub results : ℕ
  pub body : Option Block

-- ast.Decl
pub data Decl : Type 0 where
  func_decl : FuncDecl → Decl
  gen_decl : (doc : Option ℕ) → List Spec → Decl
  bad_decl : Decl

-- A node that ast.Inspect visits.
pub data Node : Type 0 where
  decl_node : (body : Option Block) → Node
  lit_node : (body : Block) → Node
  other_node : Node

-- ast.File; `nodes` are in the order of ast.Inspect, and `generated` is ast.IsGenerated.
pub record File : Type 0 where
  pub doc : Option ℕ
  pub decls : List Decl
  pub comments : List Group
  pub nodes : List Node
  pub generated : Bool

pub record ParsedFile : Type 0 where
  pub path : Text
  pub file : File
