-- ===== src/Utils/Invoke.antt =====
-- Invoke of utils/main.go, which calls a method by its name. What reflect knows of the method and of
-- the arguments is a parameter.
pub mod Called
use bridge_core.Prelude.{
  ℕ, suc, ◌+◌, ◌-◌, Bool, Option, none, some, List, [], ◌∷◌, get_elem?, length, ltb, leb, ◌==◌,
  ◌&&◌, not, if◌then◌else◌,
}
use bridge_core.Prelude.Outcome.{Outcome, returns, panics, ◌>>=◌}

-- NumIn, In, IsVariadic and Call of a method; Elem of a slice's type; the type of an argument, if it
-- is valid; ConvertibleTo and Convert.
pub record Reflected (T V R : Type 0) : Type 0 where
  pub in_types : List T
  pub is_variadic : Bool
  pub elem_type : T → T
  pub type_of : V → Option T
  pub convertible_to : T → T → Bool
  pub convert : V → T → Outcome V
  pub call : List V → Outcome (List R)

module _ {T V R : Type 0} (m : Reflected T V R) where
  open m use {in_types, is_variadic, elem_type, type_of, convertible_to, convert, call}

  abbrev pub num_in : ℕ
  num_in = length in_types

  -- `methodType.In(i)` panics out of range.
  abbrev pub in_at : ℕ → Outcome T
  in_at i = elim (get_elem? in_types i) [ none ↦ panics | some t ↦ returns t ]

  abbrev pub in_type : ℕ → Outcome T
  in_type i =
      if is_variadic && leb num_in (i + 1)
      then (in_at (num_in - 1) >>= λ t. returns (elem_type t))
      else in_at i

  -- The argument at an index converted; `none` is an error.
  abbrev pub converted : V → T → Option T → Outcome (Option V)
  converted arg t none = returns none
  converted arg t (some arg_type) =
      if convertible_to arg_type t then (convert arg t >>= λ v. returns (some v)) else returns none

  abbrev pub then_rest : Option V → Outcome (Option (List V)) → Outcome (Option (List V))
  then_rest none rest = returns none
  then_rest (some v) panics = panics
  then_rest (some v) (returns none) = returns none
  then_rest (some v) (returns (some vs)) = returns (some (v ∷ vs))

  unfoldable pub convert_args : ℕ → List V → Outcome (Option (List V))
  convert_args i [] = returns (some [])
  convert_args i (arg ∷ rest) =
      let others = convert_args (suc i) rest in
      (in_type i >>= λ t. converted arg t (type_of arg)) >>= λ v. then_rest v others

  -- `method.Call(in)[0]`
  abbrev pub first_of : List R → Outcome (Option R)
  first_of [] = panics
  first_of (r ∷ rs) = returns (some r)

  abbrev pub call_with : Option (List V) → Outcome (Option R)
  call_with none = returns none
  call_with (some ins) = call ins >>= first_of

  unfoldable pub invoke_method : List V → Outcome (Option R)
  unfolding convert_args
  invoke_method args =
      if ltb (length args) num_in
      then returns none
      else (if not (num_in == length args) && not is_variadic
          then returns none
          else (convert_args 0 args >>= call_with))

-- A method that the value does not have makes `Type` panic.
unfoldable pub invoke : {T V R : Type 0} → Option (Reflected T V R) → List V → Outcome (Option R)
unfolding invoke_method
invoke none args = panics
invoke (some m) args = invoke_method m args
