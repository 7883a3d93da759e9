-- ===== src/Slicing/Reporter/Stable.antt =====
-- A report of the GPU agent's reporter settles: the node that it has written is not written again.
use mathlib.Core.List.{Perm}
use mathlib.Core.List.Perm
use walkai_nos.Annotation.AnyOrder.{parse-SameParsed, count-Perm}
use walkai_nos.Base.{
  subst, ◌==◌, ◌≡◌, refl, true, some, List, [], ◌∷◌, ◌++◌, String, String_eq, Comparable, All,
}
use walkai_nos.GoMap.{GoMap}
use walkai_nos.Kube.{KubeNode}
use walkai_nos.Util.{unordered_equal}
use walkai_nos.Util.Unordered.{unordered_equal_iff}
use walkai_nos.Device.{Device}
use walkai_nos.Annotation.{StatusAnnotation}
use walkai_nos.Annotation.Format.{parse_node_annotations}
use walkai_nos.Annotation.Report.{as_status_annotation}
use walkai_nos.Annotation.Statuses.{IsReportable, AllDifferentStatuses, parse-written_statuses}
use walkai_nos.Agent.Client.{Calls, Clients, found, get_node}
use walkai_nos.Slicing.Profile.{extract_slice_profile}
use walkai_nos.Slicing.Reporter.{get_gpus, reported_slices, report_slices}

-- The status annotations of the devices.
abbrev pub statuses_of : List Device → List StatusAnnotation
statuses_of l = as_status_annotation extract_slice_profile l

module _ ⦃e : Comparable StatusAnnotation⦄ where
  -- The node's annotations are, in whatever order the map gives them, what a report of the devices'
  -- status annotations, in whatever order, leaves of any annotations. These are of different GPUs,
  -- profiles or statuses, with an index that is not negative, a profile without dashes, and numbers of
  -- 64 bits. Then a report succeeds, and makes no call behind those that find the devices: it does not
  -- write the node.
  pub report_slices-settled :
      (c : Clients) (t : Calls) (node : KubeNode) (l : List Device) (before : GoMap String String)
      (reported : List StatusAnnotation)
      → c.node t ≡ some node
      → (get_gpus c (t ++ get_node ∷ [])).0 ≡ found l
      → Perm reported (statuses_of l)
      → Perm node.annotations (reported_slices reported before)
      → All IsReportable reported
      → AllDifferentStatuses reported
      → report_slices c t ≡ (true, (get_gpus c (t ++ get_node ∷ [])).1)
  unfolding report_slices
  report_slices-settled c t node l before reported is_node devices order written h d =
      let read : Perm (parse_node_annotations node.annotations).0 reported =
        subst (λ r. Perm (parse_node_annotations node.annotations).0 r.0)
          (parse-written_statuses reported before h d) (parse-SameParsed written).0 in
      let same : unordered_equal (statuses_of l) (parse_node_annotations node.annotations).0
          ≡ true =
        (unordered_equal_iff (statuses_of l) (parse_node_annotations node.annotations).0).1
          (λ a. count-Perm (λ x. x == a) (Perm.symm (Perm.trans read order))) in
      rw (report_slices, is_node, devices, same) refl
