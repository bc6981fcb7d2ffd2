-- ===== src/Constants/Xml.antt =====
-- Constants::values_xml of inferui/inferui/model/util/constants.cpp: the attribute names of the input read from XML resources.
use inferui.Prelude.{String, List, [], ◌∷◌}

unfoldable pub values_xml : List String
values_xml =
    "{http://schemas.android.com/apk/res/android}id"
    ∷ "{http://schemas.android.com/apk/res/android}layout_below"
    ∷ "{http://schemas.android.com/apk/res/android}layout_above"
    ∷ "{http://schemas.android.com/apk/res/android}layout_toLeftOf"
    ∷ "{http://schemas.android.com/apk/res/android}layout_toRightOf"
    ∷ "{http://schemas.android.com/apk/res/android}layout_alignLeft"
    ∷ "{http://schemas.android.com/apk/res/android}layout_alignRight"
    ∷ "{http://schemas.android.com/apk/res/android}layout_alignTop"
    ∷ "{http://schemas.android.com/apk/res/android}layout_alignBottom"
    ∷ "{http://schemas.android.com/apk/res/android}layout_alignParentTop"
    ∷ "{http://schemas.android.com/apk/res/android}layout_alignParentBottom"
    ∷ "{http://schemas.android.com/apk/res/android}layout_alignParentLeft"
    ∷ "{http://schemas.android.com/apk/res/android}layout_alignParentRight"
    ∷ "{http://schemas.android.com/apk/res/android}layout_alignParentStart"
    ∷ "{http://schemas.android.com/apk/res/android}layout_alignParentEnd"
    ∷ "{http://schemas.android.com/apk/res/android}layout_centerHorizontal"
    ∷ "{http://schemas.android.com/apk/res/android}layout_centerInParent"
    ∷ "{http://schemas.android.com/apk/res/android}layout_centerVertical"
    ∷ "{http://schemas.android.com/apk/res-auto}layout_constraintTop_toBottomOf"
    ∷ "{http://schemas.android.com/apk/res-auto}layout_constraintBottom_toBottomOf"
    ∷ "{http://schemas.android.com/apk/res-auto}layout_constraintTop_toTopOf"
    ∷ "{http://schemas.android.com/apk/res-auto}layout_constraintBottom_toTopOf"
    ∷ "{http://schemas.android.com/apk/res-auto}layout_constraintLeft_toLeftOf"
    ∷ "{http://schemas.android.com/apk/res-auto}layout_constraintLeft_toRightOf"
    ∷ "{http://schemas.android.com/apk/res-auto}layout_constraintRight_toRightOf"
    ∷ "{http://schemas.android.com/apk/res-auto}layout_constraintRight_toLeftOf"
    ∷ "{http://schemas.android.com/apk/res-auto}layout_constraintHorizontal_bias"
    ∷ "{http://schemas.android.com/apk/res-auto}layout_constraintVertical_bias"
    ∷ "{http://schemas.android.com/apk/res-auto}layout_constraintBaseline_toBaselineOf"
    ∷ "{http://schemas.android.com/apk/res/android}layout_marginTop"
    ∷ "{http://schemas.android.com/apk/res/android}layout_marginBottom"
    ∷ "{http://schemas.android.com/apk/res/android}layout_marginRight"
    ∷ "{http://schemas.android.com/apk/res/android}layout_marginLeft"
    ∷ "{http://schemas.android.com/apk/res/android}layout_margin"
    ∷ "{http://schemas.android.com/apk/res/android}paddingTop"
    ∷ "{http://schemas.android.com/apk/res/android}paddingBottom"
    ∷ "{http://schemas.android.com/apk/res/android}paddingRight"
    ∷ "{http://schemas.android.com/apk/res/android}paddingLeft"
    ∷ "{http://schemas.android.com/apk/res/android}padding"
    ∷ "{http://schemas.android.com/apk/res/android}paddingStart"
    ∷ "{http://schemas.android.com/apk/res/android}paddingEnd"
    ∷ "{http://schemas.android.com/apk/res/android}paddingHorizontal"
    ∷ "{http://schemas.android.com/apk/res/android}paddingVertical"
    ∷ "{http://schemas.android.com/apk/res/android}layout_width"
    ∷ "{http://schemas.android.com/apk/res/android}layout_height"
    ∷ "android.support.constraint.ConstraintLayout" ∷ "RelativeLayout"
    ∷ "android.support.constraint.Guideline" ∷ "match_parent" ∷ "0dp"
    ∷ "{http://schemas.android.com/apk/res-auto}layout_constraintVertical_chainStyle"
    ∷ "{http://schemas.android.com/apk/res-auto}layout_constraintHorizontal_chainStyle" ∷ "NO_NAME"
    ∷ []
