-- ===== src/Constants/Output.antt =====
-- Constants::values_output of inferui/inferui/model/util/constants.cpp: the attribute names of the output.
use inferui.Prelude.{String, List, [], ◌∷◌}

unfoldable pub values_output : List String
values_output =
    "android:id" ∷ "android:layout_below" ∷ "android:layout_above" ∷ "android:layout_toLeftOf"
    ∷ "android:layout_toRightOf" ∷ "android:layout_alignLeft" ∷ "android:layout_alignRight"
    ∷ "android:layout_alignTop" ∷ "android:layout_alignBottom" ∷ "android:layout_alignParentTop"
    ∷ "android:layout_alignParentBottom" ∷ "android:layout_alignParentLeft"
    ∷ "android:layout_alignParentRight" ∷ "android:layout_alignParentStart"
    ∷ "android:layout_alignParentEnd" ∷ "android:layout_centerHorizontal"
    ∷ "android:layout_centerInParent" ∷ "android:layout_centerVertical"
    ∷ "app:layout_constraintTop_toBottomOf" ∷ "app:layout_constraintBottom_toBottomOf"
    ∷ "app:layout_constraintTop_toTopOf" ∷ "app:layout_constraintBottom_toTopOf"
    ∷ "app:layout_constraintLeft_toLeftOf" ∷ "app:layout_constraintLeft_toRightOf"
    ∷ "app:layout_constraintRight_toRightOf" ∷ "app:layout_constraintRight_toLeftOf"
    ∷ "app:layout_constraintHorizontal_bias" ∷ "app:layout_constraintVertical_bias"
    ∷ "app:layout_constraintBaseline_toBaselineOf" ∷ "android:layout_marginTop"
    ∷ "android:layout_marginBottom" ∷ "android:layout_marginRight" ∷ "android:layout_marginLeft"
    ∷ "android:layout_margin" ∷ "android:paddingTop" ∷ "android:paddingBottom"
    ∷ "android:paddingRight" ∷ "android:paddingLeft" ∷ "android:padding" ∷ "android:paddingStart"
    ∷ "android:paddingEnd" ∷ "android:paddingHorizontal" ∷ "android:paddingVertical"
    ∷ "android:layout_width" ∷ "android:layout_height"
    ∷ "android.support.constraint.ConstraintLayout" ∷ "RelativeLayout"
    ∷ "android.support.constraint.Guideline" ∷ "match_parent" ∷ "0dp"
    ∷ "app:layout_constraintVertical_chainStyle" ∷ "app:layout_constraintHorizontal_chainStyle"
    ∷ "NO_NAME" ∷ []
