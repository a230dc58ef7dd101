-- ===== src/Derive/Run.antt =====
-- What the code that the macros of borsh-derive/src/internals make does when it runs. A parameter is a
-- function that an attribute names where the code calls it, or `Default`. `none` is code that rustc
-- refuses: a name is not bound, a field is not given, or a type has no `Default`.
use borsh_rs.Base.{
  ℕ, zero, suc, String, Bool, true, false, Option, none, some, List, [], ◌∷◌, if◌then◌else◌,
}
use borsh_rs.Io.{M, Write, Read, pure, ◌>>=◌, ◌>>◌}
use borsh_rs.Types.{Ty, ⟦◌⟧}
use borsh_rs.Types.Results.{serialize, deserialize}
use borsh_rs.Derive.{ExprPath, Field, ItemFields, named, unnamed, unit}
use borsh_rs.Derive.Serialize.{Expr, self_name, self_index, Statement}
use borsh_rs.Derive.Deserialize.{FieldInit, read, default, Construct, braces, parentheses, bare}
use text.Mathlib.Text.{◌==◌ as str_eq}

-- A value with its type.
abbrev pub Dyn : Type 0
Dyn = (t : Ty) × ⟦ t ⟧

-- A value for each field.
abbrev pub Values : List Field → Type 0
Values [] = Unit {0}
Values (f ∷ fs) = ⟦ f.ty ⟧ × Values fs

abbrev pub fields_of : ItemFields → List Field
fields_of (named fs) = fs
fields_of (unnamed fs) = fs
fields_of unit = []

abbrev pub same_name : Option String → String → Bool
same_name none n = false
same_name (some m) n = str_eq m n

abbrev pub by_name : (fs : List Field) → Values fs → String → Option Dyn
by_name [] vs n = none
by_name (f ∷ fs) vs n = if same_name f.ident n then some (f.ty, vs.0) else by_name fs vs.1 n

abbrev pub by_index : (fs : List Field) → Values fs → ℕ → Option Dyn
by_index [] vs i = none
by_index (f ∷ fs) vs zero = some (f.ty, vs.0)
by_index (f ∷ fs) vs (suc i) = by_index fs vs.1 i

-- A path that is one of these names stands for a variable, and not for a function.
abbrev pub is_local : List String → ExprPath → Bool
is_local [] p = false
is_local (n ∷ ns) p = if str_eq n p then true else is_local ns p

-- The parameters of the methods that are made, and the variable of `serialize` of an enum.
abbrev pub writing_locals : List String
writing_locals = "self" ∷ "writer" ∷ "variant_idx" ∷ []

abbrev pub reading_locals : List String
reading_locals = "reader" ∷ "variant_tag" ∷ []

abbrev pub is_hidden : (ExprPath → Bool) → Option ExprPath → Bool
is_hidden hides none = false
is_hidden hides (some p) = hides p

abbrev pub unless : {A : Type 0} → Bool → Option A → Option A
unless hidden o = if hidden then none else o

-- The expressions of a method of a struct.
abbrev pub struct_env : (fs : ItemFields) → Values (fields_of fs) → Expr → Option Dyn
struct_env (named fs) vs (self_name n) = by_name fs vs n
struct_env (unnamed fs) vs (self_index i) = by_index fs vs i
struct_env _ vs e = none

module _ {W : Type 0} (w : Write W) (serialize_with : ExprPath → Dyn → M W (Unit {0})) where
  abbrev pub call : Option ExprPath → Dyn → M W (Unit {0})
  call none d = serialize w d.0 d.1
  call (some p) d = serialize_with p d

  abbrev pub then_run :
      Option Dyn → Option ExprPath → Option (M W (Unit {0})) → Option (M W (Unit {0}))
  then_run none p more = none
  then_run (some d) p none = none
  then_run (some d) p (some m) = some (call p d >> m)

  -- `hides` tells which paths are variables.
  abbrev pub run_body :
      (ExprPath → Bool) → (Expr → Option Dyn) → List Statement → Option (M W (Unit {0}))
  run_body hides env [] = some (pure tt)
  run_body hides env (s ∷ ss) =
      then_run (unless (is_hidden hides s.func) (env s.arg)) s.func (run_body hides env ss)

-- `core::default::Default::default()`, at a type that may have none.
abbrev pub give_default : {R A : Type 0} → Option A → Option (M R A)
give_default none = none
give_default (some v) = some (pure v)

module _ {R : Type 0} (rd : Read R) (deserialize_with : ExprPath → (t : Ty) → M R ⟦ t ⟧)
    (default_of : (t : Ty) → Option ⟦ t ⟧) where
  abbrev pub read_call : Option ExprPath → (t : Ty) → M R ⟦ t ⟧
  read_call none t = deserialize rd t
  read_call (some p) t = deserialize_with p t

  abbrev pub named_as : Option String → Option String → Bool
  named_as (some m) (some n) = str_eq m n
  named_as none none = true
  named_as _ _ = false

  abbrev pub run_init : (f : Field) → FieldInit → Option (M R ⟦ f.ty ⟧)
  run_init f (read n p) =
      if named_as f.ident n
      then unless (is_hidden (is_local reading_locals) p) (some (read_call p f.ty))
      else none
  run_init f (default n) = if named_as f.ident n then give_default (default_of f.ty) else none

  abbrev pub then_init : {A B : Type 0} → Option (M R A) → Option (M R B) → Option (M R (A × B))
  then_init none rest = none
  then_init (some m) none = none
  then_init (some m) (some rest) = some (m >>= λ v. rest >>= λ vs. pure (v, vs))

  abbrev pub run_inits : (fs : List Field) → List FieldInit → Option (M R (Values fs))
  run_inits [] [] = some (pure tt)
  run_inits [] (i ∷ more) = none
  run_inits (f ∷ fs) [] = none
  run_inits (f ∷ fs) (i ∷ more) = then_init (run_init f i) (run_inits fs more)

  -- The constructor has the shape of the declaration.
  abbrev pub run_construct : (fs : ItemFields) → Construct → Option (M R (Values (fields_of fs)))
  run_construct (named fs) (braces body) = run_inits fs body
  run_construct (unnamed fs) (parentheses body) = run_inits fs body
  run_construct unit bare = some (pure tt)
  run_construct _ _ = none

-- `return_value.method();`, if there is a method to call.
abbrev pub call_init : {A : Type 0} → (ExprPath → A → A) → Option ExprPath → A → A
call_init init_with none v = v
call_init init_with (some p) v = init_with p v

abbrev pub then_call_init :
    {R A : Type 0} → (ExprPath → A → A) → Option ExprPath → Option (M R A) → Option (M R A)
then_call_init init_with p none = none
then_call_init init_with p (some m) = some (m >>= λ v. pure (call_init init_with p v))
