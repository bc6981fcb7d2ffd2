-- ===== src/Lib.antt =====
-- InferUI synthesizes Android constraint layouts: from the positions of the views on a screen it
-- chooses, for each view and each orientation, an attribute (a constraint) that anchors the view
-- to others or to the content frame.
--
-- The parts and their files:
--   Prelude         shared names, tests on native numbers, lists, integers
--   Constants       inferui/inferui/model/util/constants.h and .cpp: names of XML attributes in three
--                   dialects (input_ui, input_xml, output_xml)
--   ConstraintType  inferui/inferui/model/model.h and .cpp: the sixteen ways to anchor a view
--   Geometry        inferui/base/geomutil.h and .cpp: segments against rectangles, nearest points
--   Base            inferui/base/iterutil.h: MultiSortedIterator; inferui/base/strutil.h and .cpp:
--                   texts that are split, joined, trimmed, shortened and escaped
--   Model           inferui/inferui/model/model.h and .cpp: Attribute, View, and the graph that the
--                   anchors of an app form (ReferencedNodes, IsCircularRelation, IsAnchored); App with
--                   its copies and the merge of two apps; Json: App::ToJSON and ToProperties
--   LayoutSolver    inferui/inferui/layout_solver/solver.h: sendPost; JsonToApp of syn_helper.cpp
--   Generator       inferui/inferui/model/constraints.h and .cpp: the candidates of a view
--   Synthesis       inferui/inferui/model/synthesis.h: the greedy choice among the candidates
--   SynHelper       inferui/inferui/model/syn_helper.cpp: AppMatch, FindNonMatchingViews,
--                   NormalizeMargins, EmptyApp and KeepFirstNViews
--   Thread          inferui/util/thread/work_queue.h: ProducerConsumerQueue
--   Examples        tests, and the theorems at concrete inputs
--
-- The synthesis asks the generator for the candidates of each view, gives them probabilities,
-- sorts them, and walks through all of them from the most probable on by a MultiSortedIterator.
-- It applies a candidate when ShouldApplyConstraint says so, which asks the graph of anchors
-- whether the candidate would close a circle and whether it would anchor its view. When a view is
-- anchored, the iterator skips its other candidates. SynthesizeLayout does this in one
-- orientation and then in the other. NormalizeMargins takes a synthesized app, sets margins of 1
-- to 0 one view at a time, and keeps a change when the layout server renders the app to the boxes
-- that it has: App::ToJSON writes the app, sendPost sends it, and JsonToApp reads the answer.
--
-- How the model corresponds to the code: a function keeps its name, in snake case. A `View*` is
-- the id of the view it points at, and following it is a search of the app, so that all pointers
-- share one store. A failed CHECK, a fatal error or a missing key is `none`. An `int` is an
-- integer without bound; Geometry.Bounds says when the arithmetic of `F` stays in 32 bits. A
-- margin, which the code computes as float, is an exact number, which is the same below 2^24. A
-- bias is counted in ten-thousandths, a centered margin in half pixels, and a probability is an
-- integer of which only the order is used. A text is a list of bytes. The function that gives a
-- probability, the std::sort of candidates and the layout server, with curl, the JSON reader and
-- the search by a regular expression, are parameters. The threads at a queue are counted, and a
-- run is any sequence of their critical sections and calls of notify_one.
--
-- Fuel: a recursion along the anchors runs on the number of views, since every nested call visits
-- one view more; the main loop runs on the number of candidates, since every step uses one up;
-- the while loop of NormalizeMargins runs on the number of views, since every turn resolves one
-- more; the theorems show that this is enough.
--
-- Not modelled: the output of apps as XML and as coordinates, their input from protobuf and JSON
-- files, the probability models, the synthesis by Z3, the evaluation drivers, the server, and
-- copies of other libraries (json, sparsehash).
pub mod Prelude
pub mod Constants
pub mod ConstraintType
pub mod Geometry
pub mod Base
pub mod Model
pub mod LayoutSolver
pub mod Generator
pub mod Synthesis
pub mod SynHelper
pub mod Thread
pub mod Examples
