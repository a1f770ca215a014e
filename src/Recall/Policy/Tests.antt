-- ===== src/Recall/Policy/Tests.antt =====
-- A secret that is captured under the name "ep".
use kairos_engine.Base.{◌≡◌, refl, Option, some, [], ◌∷◌, list_beq, arith}
use kairos_engine.Base.Text.{codes, utf8, trim, trim_start, trim_end, lines, split_once, split}
use kairos_engine.Recall.Policy.{Text, from_class, class_default_delivery, write_episode_okf}
use kairos_engine.Recall.Policy.Parse.{
  parse_okf_policy, policy_loop, set_field, decline_list, okf_body, body_loop,
}
use kairos_engine.Recall.Policy.Classify.{classify_mem_class, is_code}
use kairos_engine.Recall.Policy.Written.{parse_okf_policy-write}
use kairos_engine.Recall.Policy.Body.{NoReturn, okf_body-write}
use kairos_engine.Recall.Policy.Lines.{Plain, NoFeed}

abbrev secret : Text
secret = codes "the gate is AB-12\n---\nmem_class: fact"

abbrev same : Text → Text
same t = t

ep-NoFeed : NoFeed (codes "ep")
ep-NoFeed = (λ e. absurd (omega (arith, e)), (λ e. absurd (omega (arith, e)), tt))

abbrev xy : Text
xy = codes "xy"

xy-Plain : Plain xy
xy-Plain = (
  (λ e. absurd (omega (arith, e)), λ e. absurd (omega (arith, e))),
  ((λ e. absurd (omega (arith, e)), λ e. absurd (omega (arith, e))), tt),
)

abbrev registry : Text → Option Text
registry class = some xy

parse_okf_policy-write_example :
    parse_okf_policy (write_episode_okf registry secret xy (codes "ep"))
    ≡ some (from_class registry xy)
unfolding trim trim_start trim_end
parse_okf_policy-write_example =
    parse_okf_policy-write registry secret xy (codes "ep") xy-Plain refl xy-Plain refl ep-NoFeed

-- A text of one line with a fence's dashes.
abbrev dashes : Text
dashes = codes "--- "

dashes-NoReturn : NoReturn dashes
dashes-NoReturn = (
  (λ e. absurd (omega (arith, e))),
  (
    (λ e. absurd (omega (arith, e))),
    ((λ e. absurd (omega (arith, e))), ((λ e. absurd (omega (arith, e))), tt)),
  ),
)

xy-NoFeed : NoFeed xy
xy-NoFeed = (λ e. absurd (omega (arith, e)), (λ e. absurd (omega (arith, e)), tt))

okf_body-write_example : okf_body (write_episode_okf registry dashes xy (codes "ep")) ≡ codes "---"
unfolding trim trim_start trim_end
okf_body-write_example =
    okf_body-write registry dashes xy (codes "ep") dashes-NoReturn xy-NoFeed xy-NoFeed ep-NoFeed

test-classify : classify_mem_class same secret ≡ codes "private-secret"
unfolding classify_mem_class is_code utf8
test-classify = refl

test-persona : classify_mem_class same (codes "call me Al") ≡ codes "persona"
unfolding classify_mem_class is_code utf8
test-persona = refl

-- The body keeps the attribution that the engine writes in front of it.
test-body :
    okf_body (codes "---\nmem_class: fact\n---\n\nThe user said: hi\n") ≡ codes "The user said: hi"
unfolding okf_body body_loop lines list_beq trim trim_start trim_end
test-body = refl

test-default :
    parse_okf_policy (codes "---\nmem_class: persona\nmem_decline_when: [a, ,b]\n---\n")
    ≡ some (record {
      class = codes "persona";
      delivery = codes "system";
      decline_when = codes "a" ∷ codes "b" ∷ [];
      decline_message = [];
    })
unfolding parse_okf_policy policy_loop set_field decline_list class_default_delivery lines
    split_once split list_beq trim trim_start trim_end
test-default = refl
