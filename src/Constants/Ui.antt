-- ===== src/Constants/Ui.antt =====
-- Constants::values_ui of inferui/inferui/model/util/constants.cpp: the attribute names of the input read from a dump of the running interface.
use inferui.Prelude.{String, List, [], ◌∷◌}

unfoldable pub values_ui : List String
values_ui =
    "attributes:id" ∷ "attributes:layout_below" ∷ "attributes:layout_above"
    ∷ "attributes:layout_toLeftOf" ∷ "attributes:layout_toRightOf" ∷ "attributes:layout_alignLeft"
    ∷ "attributes:layout_alignRight" ∷ "attributes:layout_alignTop"
    ∷ "attributes:layout_alignBottom" ∷ "attributes:layout_alignParentTop"
    ∷ "attributes:layout_alignParentBottom" ∷ "attributes:layout_alignParentLeft"
    ∷ "attributes:layout_alignParentRight" ∷ "attributes:layout_alignParentStart"
    ∷ "attributes:layout_alignParentEnd" ∷ "attributes:layout_centerHorizontal"
    ∷ "attributes:layout_centerInParent" ∷ "attributes:layout_centerVertical"
    ∷ "attributes:layout_constraintTop_toBottomOf" ∷ "attributes:layout_constraintBottom_toBottomOf"
    ∷ "attributes:layout_constraintTop_toTopOf" ∷ "attributes:layout_constraintBottom_toTopOf"
    ∷ "attributes:layout_constraintLeft_toLeftOf" ∷ "attributes:layout_constraintLeft_toRightOf"
    ∷ "attributes:layout_constraintRight_toRightOf" ∷ "attributes:layout_constraintRight_toLeftOf"
    ∷ "attributes:layout_constraintHorizontal_bias" ∷ "attributes:layout_constraintVertical_bias"
    ∷ "attributes:layout_constraintBaseline_toBaselineOf" ∷ "layout:layout_topMargin"
    ∷ "layout:layout_bottomMargin" ∷ "layout:layout_rightMargin" ∷ "layout:layout_leftMargin"
    ∷ "layout:layout_margin" ∷ "padding:mPaddingTop" ∷ "padding:mPaddingBottom"
    ∷ "padding:mPaddingRight" ∷ "padding:mPaddingLeft" ∷ "NOT_DEFINED" ∷ "NOT_DEFINED"
    ∷ "NOT_DEFINED" ∷ "NOT_DEFINED" ∷ "NOT_DEFINED" ∷ "attributes:layout_width"
    ∷ "attributes:layout_height" ∷ "android.support.constraint.ConstraintLayout" ∷ "RelativeLayout"
    ∷ "android.support.constraint.Guideline" ∷ "match_parent" ∷ "0dp"
    ∷ "attributes:layout_constraintVertical_chainStyle"
    ∷ "attributes:layout_constraintHorizontal_chainStyle" ∷ "NO_NAME" ∷ []
