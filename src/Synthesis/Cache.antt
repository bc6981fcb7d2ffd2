-- ===== src/Synthesis/Cache.antt =====
-- InitializePrune, IsValid and IsAllowed of ConstraintCache in inferui/inferui/model/synthesis.h. The
-- matrix of allowed targets is a function of two positions, without the bounds of the vectors in which
-- the code keeps it; `none` is a pointer that points at no view, or a failed walk through the
-- candidates.
use inferui.Prelude.{
  ℕ, suc, Bool, true, false, not, ◌&&◌, Option, none, some, List, [], ◌∷◌, ◌==◌, length,
  if◌then◌else◌,
}
use inferui.ConstraintType.Defs.{ViewSize, ConstraintType, is_relational_anchor, to_orientation}
use inferui.Model.View.{Attribute, View, find}
use inferui.Model.Graph.{find_view}
use inferui.Base.MultiSorted.{begin, get_output}
use inferui.Base.MultiSorted.Merge.{concat}
use inferui.Generator.Defs.{crosses_sides}
use inferui.Synthesis.Defs.{greater}

abbrev pub Matrix : Type 0
Matrix = ℕ → ℕ → Bool

abbrev pub nothing_allowed : Matrix
nothing_allowed i j = false

-- allowed_targets[i][j] = true
abbrev pub allow : Matrix → ℕ → ℕ → Matrix
allow m i j = λ a b. if a == i && b == j then true else m a b

-- `view->pos`
unfoldable pub position_of : List View → ℕ → Option ℕ
position_of views id = elim (find_view views id) [ none ↦ none | some view ↦ some view.position ]

-- The body of the loop of InitializePrune, for the positions of the source and of the targets.
unfoldable pub prune_relational : Matrix → ℕ → ℕ → Matrix
prune_relational m src primary = if not (m primary src) then allow m src primary else m

unfoldable pub prune_center : Matrix → ℕ → ℕ → ℕ → Matrix
prune_center m src primary secondary =
    if not (m primary src) && not (m secondary src)
    then allow (allow m src primary) src secondary
    else m

unfoldable pub prune_one : List View → Matrix → Attribute → Option Matrix
unfolding position_of prune_relational prune_center
prune_one views m attr = elim (position_of views attr.src) [
  | none ↦ none
  | some src ↦ elim (position_of views attr.tgt_primary) [
    | none ↦ none
    | some primary ↦
        if is_relational_anchor attr.type
        then some (prune_relational m src primary)
        else elim attr.tgt_secondary [
          | none ↦ none
          | some second ↦ elim (position_of views second) [
            | none ↦ none
            | some secondary ↦ some (prune_center m src primary secondary)
          ]
        ]
  ]
]

unfoldable pub prune_all : List View → Matrix → List Attribute → Option Matrix
unfolding prune_one
prune_all views m [] = some m
prune_all views m (attr ∷ attrs) = elim (prune_one views m attr) [
  | none ↦ none
  | some after ↦ prune_all views after attrs
]

-- InitializePrune
unfoldable pub initialize_prune : List View → List (List Attribute) → Option Matrix
unfolding prune_all begin get_output concat
initialize_prune views candidates = elim (begin greater candidates) [
  | none ↦ none
  | some it ↦ elim (get_output greater (suc (length (concat candidates))) it) [
    | none ↦ none
    | some attrs ↦ prune_all views nothing_allowed attrs
  ]
]

-- L2RxR2L and T2BxB2T.
unfoldable pub is_between : ConstraintType → Bool
is_between ConstraintType.l2rxr2l = true
is_between ConstraintType.t2bxb2t = true
is_between _ = false

-- L2LxR2L, L2RxR2R, T2TxB2T and T2BxB2B.
unfoldable pub is_one_sided : ConstraintType → Bool
is_one_sided ConstraintType.l2lxr2l = true
is_one_sided ConstraintType.l2rxr2r = true
is_one_sided ConstraintType.t2txb2t = true
is_one_sided ConstraintType.t2bxb2b = true
is_one_sided _ = false

-- IsValid
unfoldable pub is_valid : List View → Attribute → Option Bool
unfolding position_of crosses_sides is_between is_one_sided
is_valid views attr = elim (position_of views attr.tgt_primary) [
  | none ↦ none
  | some primary ↦
      if is_relational_anchor attr.type
      then some (not (primary == 0 && crosses_sides attr.type))
      else elim attr.tgt_secondary [
        | none ↦ none
        | some second ↦ elim (position_of views second) [
          | none ↦ none
          | some secondary ↦ some (
              not (is_between attr.type && attr.tgt_primary == second)
              && not (primary == 0 && secondary == 0 && is_one_sided attr.type))
        ]
      ]
]

abbrev pub size_id : ViewSize → ℕ
size_id ViewSize.match_parent = 0
size_id ViewSize.match_constraint = 1
size_id ViewSize.fixed = 2

-- Contains(view_size, orientation) && view_size.find(orientation)->second != attr->view_size
abbrev pub wrong_size : Option ViewSize → ViewSize → Bool
wrong_size none size = false
wrong_size (some given) size = not (size_id given == size_id size)

-- IsAllowed
unfoldable pub is_allowed : List View → Matrix → Attribute → Option Bool
unfolding is_valid position_of
is_allowed views m attr = elim (is_valid views attr) [
  | none ↦ none
  | some false ↦ some false
  | some true ↦ elim (to_orientation attr.type) [
    | none ↦ none
    | some o ↦ elim (find_view views attr.src) [
      | none ↦ none
      | some src ↦
          if wrong_size (find src.view_size o) attr.view_size
          then some false
          else elim (position_of views attr.tgt_primary) [
            | none ↦ none
            | some primary ↦
                if is_relational_anchor attr.type
                then some (m src.position primary)
                else elim attr.tgt_secondary [
                  | none ↦ none
                  | some second ↦ elim (position_of views second) [
                    | none ↦ none
                    | some secondary ↦ some (m src.position primary && m src.position secondary)
                  ]
                ]
          ]
    ]
  ]
]
