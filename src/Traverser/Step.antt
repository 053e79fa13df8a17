-- ===== src/Traverser/Step.antt =====
-- The steps of the machine over a list of parameters.
use occa_transpiler.Base.{
  ℕ, zero, suc, ◌+◌, ◌-◌, ◌%◌, ◌<◌, Bool, true, false, List, [], ◌∷◌, ◌++◌, ◌≡◌, refl, arith,
  length, is_nil, subst, if◌then◌else◌, ◌==◌, append_assoc, append-nil,
}
use occa_transpiler.Ast.{Bytes}
use occa_transpiler.Traverser.{
  Token, TokenKind, Fsm, FsmStepStatus, OklAttribute, OklAttributeParserState, process_token_by_fsm,
  on_param, add_token, param_text, is_one_of, wrap, parse_attr_param_list, l_paren, r_paren,
  other_token,
}
use FsmStepStatus.{token_processed, okl_attr_parsed}

-- The tokens after the opening parenthesis of a list of parameters, `depth` parentheses open: they
-- may stand in such a list, and the last of them closes it, no one before.
abbrev pub closes : ℕ → List Token → Bool
closes depth [] = false
closes depth (t ∷ ts) =
    let inside = closes (suc depth) ts in
    let outside = closes (depth - 1) ts in
    let beside = closes depth ts in
    elim t.kind [
      | l_paren ↦ inside
      | r_paren ↦ if depth == 1 then is_nil ts else outside
      | other_token ↦ false
      | _ ↦ beside
    ]

unfoldable pub params_text : List Token → Bytes
params_text [] = []
params_text (t ∷ ts) = param_text t ++ params_text ts

abbrev pub indices : ℕ → ℕ → List ℕ
indices i zero = []
indices i (suc n) = i ∷ indices (suc i) n

unfoldable pub last_index : ℕ → List Token → ℕ
last_index i [] = i
last_index i (t ∷ []) = i
last_index i (t ∷ u ∷ us) = last_index (suc i) (u ∷ us)

abbrev pub at_fsm : ℕ → OklAttributeParserState → OklAttribute → ℕ → Fsm
at_fsm i st a d = record { token_cursor = i; state = st; attr = a; paren_depth = d }

abbrev pub extend : OklAttribute → ℕ → List Token → OklAttribute
extend a i ts = record a {
  params = a.params ++ params_text ts;
  tok_indecies = a.tok_indecies ++ indices i (length ts);
}

pub extend-cons :
    (a : OklAttribute) (i : ℕ) (t : Token) (ts : List Token)
    → extend (extend a i (t ∷ [])) (suc i) ts ≡ extend a i (t ∷ ts)
unfolding params_text
extend-cons a i t ts =
    rw
      (
        append-nil (param_text t),
        append_assoc a.params (param_text t) (params_text ts),
        append_assoc a.tok_indecies (i ∷ []) (indices (suc i) (length ts)),
      )
      refl

up_wrap : (d : ℕ) → suc d < wrap → (d + 1) % wrap ≡ suc d
up_wrap d h = omega arith

down : (d : ℕ) → suc d < wrap → (suc d + wrap - 1) % wrap ≡ d
down d h = omega arith

on_param_one_of :
    (f : Fsm) (t : Token) (k : TokenKind)
    → is_one_of k ≡ true
    → on_param f t k ≡ (record f { attr = add_token f (param_text t) }, token_processed)
on_param_one_of f t k h = ground arith

pub open_step :
    (i d : ℕ) (a : OklAttribute) (t : Token)
    → t.kind ≡ l_paren
    → suc d < wrap
    → process_token_by_fsm (at_fsm i parse_attr_param_list a d) t
      ≡ (at_fsm i parse_attr_param_list (extend a i (t ∷ [])) (suc d), token_processed)
unfolding process_token_by_fsm params_text param_text
open_step i d a t h k = rw (h, append-nil t.spelling, up_wrap d k) refl

suc-not_zero : (d : ℕ) → (suc d == 0) ≡ false
suc-not_zero d = ground arith

pub close_step :
    (i d : ℕ) (a : OklAttribute) (t : Token)
    → t.kind ≡ r_paren
    → suc d < wrap
    → process_token_by_fsm (at_fsm i parse_attr_param_list a (suc d)) t ≡ (
      at_fsm i parse_attr_param_list (extend a i (t ∷ [])) d,
      if d == 0 then okl_attr_parsed else token_processed,
    )
unfolding process_token_by_fsm params_text param_text
close_step i d a t h k = rw (h, append-nil t.spelling, down d k) refl

pub param_step :
    (i d : ℕ) (a : OklAttribute) (t : Token)
    → is_one_of t.kind ≡ true
    → process_token_by_fsm (at_fsm i parse_attr_param_list a d) t
      ≡ (at_fsm i parse_attr_param_list (extend a i (t ∷ [])) d, token_processed)
unfolding process_token_by_fsm params_text
param_step i d a t h =
    rw (append-nil (param_text t)) (on_param_one_of (at_fsm i parse_attr_param_list a d) t t.kind h)

pub data KindCase (k : TokenKind) : Type 0 where
  opens : k ≡ l_paren → KindCase k
  closing : k ≡ r_paren → KindCase k
  param : is_one_of k ≡ true → KindCase k
  foreign : k ≡ other_token → KindCase k

pub kind-cases : (k : TokenKind) → KindCase k
kind-cases l_paren = opens refl
kind-cases r_paren = closing refl
kind-cases other_token = foreign refl
kind-cases _ = param refl

pub closes-open :
    (d : ℕ) (t : Token) (ts : List Token)
    → t.kind ≡ l_paren
    → closes (suc d) (t ∷ ts) ≡ true
    → closes (suc (suc d)) ts ≡ true
closes-open d t ts h c = ground arith

pub closes-param :
    (d : ℕ) (t : Token) (ts : List Token)
    → is_one_of t.kind ≡ true
    → closes (suc d) (t ∷ ts) ≡ true
    → closes (suc d) ts ≡ true
closes-param d t ts h c = ground arith

pub close_not_last :
    (i d : ℕ) (a : OklAttribute) (t : Token)
    → t.kind ≡ r_paren
    → suc (suc d) < wrap
    → process_token_by_fsm (at_fsm i parse_attr_param_list a (suc (suc d))) t
      ≡ (at_fsm i parse_attr_param_list (extend a i (t ∷ [])) (suc d), token_processed)
close_not_last i d a t h k =
    subst
      (λ b. process_token_by_fsm (at_fsm i parse_attr_param_list a (suc (suc d))) t ≡ (
        at_fsm i parse_attr_param_list (extend a i (t ∷ [])) (suc d),
        if b then okl_attr_parsed else token_processed,
      ))
      (suc-not_zero d) (close_step i (suc d) a t h k)

pub closes-close :
    (d : ℕ) (t : Token) (ts : List Token)
    → t.kind ≡ r_paren
    → closes (suc (suc d)) (t ∷ ts) ≡ true
    → closes (suc d) ts ≡ true
closes-close d t ts h c = ground arith

pub closes-last :
    (t : Token) (ts : List Token) → t.kind ≡ r_paren → closes 1 (t ∷ ts) ≡ true → is_nil ts ≡ true
closes-last t ts h c = ground arith

pub closes-foreign :
    (d : ℕ) (t : Token) (ts : List Token)
    → t.kind ≡ other_token
    → closes (suc d) (t ∷ ts) ≡ true
    → ⊥
closes-foreign d t ts h c = ground arith
