-- ===== src/Policy/Expression/Tests.antt =====
-- A condition tree over a package's asset fields, and a message template.
use dep_customs.Prelude.{◌≡◌, ◌≢◌, refl, String, true, false, [], ◌∷◌, eq_iff, arith}
use dep_customs.Policy.Value.{Value, num, str, null, arr, obj, undefined, Items, Members}
use dep_customs.Policy.Value.Sample.{Sample, natural, sample_number}
use dep_customs.Policy.Expression.{
  Fields, get_field, Condition, Conditions, leaf, any_of, all_of, not_of, ok, type_error,
  evaluate_leaf, evaluate_condition, evaluate_condition_with_trace, Trace, Traces, leaf_node,
  all_node, not_node, result_of,
}
use dep_customs.Policy.Expression.Tracing.{Explains, evaluate_condition-with_trace}
use dep_customs.Policy.Expression.Meaning.{evaluate_condition-meaning}
use dep_customs.Policy.Expression.Template.{render_template}
use dep_customs.Policy.Expression.Template.Laws.{render_template-braced}

abbrev fields : Fields Sample
fields = ("asset.version_age_days", num (natural 2)) ∷ ("asset.ecosystem", str "npm") ∷ []

abbrev young : Condition Sample
young = leaf "asset.version_age_days" "lt" (num (natural 7))

abbrev on_npm : Condition Sample
on_npm = leaf "asset.ecosystem" "eq" (str "npm")

abbrev condition : Condition Sample
condition = all_of (Conditions.more young (Conditions.more (not_of on_npm) Conditions.nil))

abbrev condition_trace : Trace Sample
condition_trace = all_node false (
    Traces.more (leaf_node true "asset.version_age_days" "lt" (num (natural 7)) (num (natural 2))) (
      Traces.more (not_node false (leaf_node true "asset.ecosystem" "eq" (str "npm") (str "npm")))
        Traces.nil))

evaluate_condition-meaning_example : evaluate_condition condition fields ≡ ok false
unfolding evaluate_leaf get_field dep_customs.Policy.Expression.compare_present
    dep_customs.Policy.Value.less dep_customs.Policy.Value.loosely_eq
    dep_customs.Policy.Value.is_convertible
evaluate_condition-meaning_example = evaluate_condition-meaning condition fields (refl, (refl, tt))

condition-trace : evaluate_condition_with_trace condition fields ≡ ok (false, condition_trace)
unfolding evaluate_condition_with_trace evaluate_leaf get_field
    dep_customs.Policy.Expression.compare_present dep_customs.Policy.Value.less
    dep_customs.Policy.Value.loosely_eq dep_customs.Policy.Value.is_convertible
condition-trace = refl

evaluate_condition-with_trace_example :
    (evaluate_condition condition fields ≡ ok false)
    × (result_of condition_trace ≡ false)
    × Explains fields condition_trace
evaluate_condition-with_trace_example =
    evaluate_condition-with_trace condition fields false condition_trace condition-trace

-- a condition whose value is an object with a member `toString`
abbrev unprintable : Condition Sample
unprintable =
    leaf "asset.ecosystem" "eq" (obj (Members.member "toString" (num (natural 1)) Members.none))

unprintable_error :
    (evaluate_condition unprintable fields ≡ type_error)
    × (evaluate_condition
          (any_of (Conditions.more young (Conditions.more unprintable Conditions.nil)))
          fields
        ≡ ok true)
unfolding evaluate_leaf get_field dep_customs.Policy.Expression.compare_present
    dep_customs.Policy.Value.less dep_customs.Policy.Value.loosely_eq
    dep_customs.Policy.Value.is_convertible dep_customs.Policy.Expression.evaluate
    evaluate_condition
unprintable_error = (refl, refl)

abbrev age_ref : String
age_ref = " age"

age_ref-ne : age_ref ≢ ""
age_ref-ne e = ground (arith, eq_iff age_ref "", e)

render_template-braced_example :
    render_template "Is {{ age}} days old" (("age", num (natural 2)) ∷ []) ≡ "Is 2 days old"
unfolding dep_customs.Policy.Expression.Template.render_value get_field render_template
    dep_customs.Policy.Expression.Template.match_ref
render_template-braced_example =
    render_template-braced (("age", num (natural 2)) ∷ []) "Is " age_ref " days old"
      ((λ e. omega (arith, e)), ((λ e. omega (arith, e)), ((λ e. omega (arith, e)), tt)))
      (
        (λ e. omega (arith, e)),
        ((λ e. omega (arith, e)), ((λ e. omega (arith, e)), ((λ e. omega (arith, e)), tt))),
      )
      age_ref-ne
