-- ===== src/Spine/Answered.antt =====
-- tools/sp_daemon/src/spine.rs, the echo framing: the user's last message with another content.
use kairos_engine.Base.{
  ◌≡◌, refl, ap, sym, ◌∙◌, Bool, true, false, not, ◌||◌, List, [], ◌∷◌, ◌++◌, list_beq, list_beq→eq,
  if◌then◌else◌,
}
use kairos_engine.Base.Text.{codes}
use kairos_engine.Recall.Lexical.{filter, any}
use kairos_engine.Spine.{Text}
use kairos_engine.Tokenizer.Template.{Message}
use kairos_engine.Spine.Executor.{is_user, not_system, set_last_user}

-- One message of a history is the last of the user, and only its content is another.
pub record IsAnswered (content : Text) (ms out : List Message) : Type 0 where
  pub before : List Message
  pub asked : Message
  pub after : List Message
  pub split : ms ≡ before ++ (asked ∷ after)
  pub by_user : is_user asked ≡ true
  pub last : any is_user after ≡ false
  pub result : out ≡ before ++ (record { role = asked.role; content = content } ∷ after)

pub set_last_user-IsAnswered :
    (content : Text) (ms : List Message)
    → any is_user ms ≡ true
    → IsAnswered content ms (set_last_user content ms)
unfolding set_last_user any
set_last_user-IsAnswered content [] h = absurd (cc h)
set_last_user-IsAnswered content (m ∷ ms) h =
    go (any is_user ms) refl (set_last_user-IsAnswered content ms) (is_user m) refl h
  where
    go :
        (v : Bool)
        → any is_user ms ≡ v
        → (any is_user ms ≡ true → IsAnswered content ms (set_last_user content ms))
        → (u : Bool) → is_user m ≡ u
        → (u || any is_user ms) ≡ true
        → IsAnswered content (m ∷ ms) (
            if v
            then m ∷ set_last_user content ms
            else if u
            then record { role = m.role; content = content } ∷ ms
            else m ∷ ms)
    go true e ih u eu h =
        let r = ih e in
        record {
          before = m ∷ r.before;
          asked = r.asked;
          after = r.after;
          split = ap (λ (l : List Message). m ∷ l) r.split;
          by_user = r.by_user;
          last = r.last;
          result = ap (λ (l : List Message). m ∷ l) r.result;
        }
    go false e ih true eu h = record {
      before = [];
      asked = m;
      after = ms;
      split = refl;
      by_user = eu;
      last = e;
      result = refl;
    }
    go false e ih false eu h = absurd (cc (sym e ∙ h))

pub filter_keeps_user :
    (ms : List Message) → any is_user ms ≡ true → any is_user (filter not_system ms) ≡ true
unfolding filter any list_beq
filter_keeps_user [] h = absurd (cc h)
filter_keeps_user (m ∷ ms) h = go (is_user m) refl (not_system m) refl (filter_keeps_user ms) h
  where
    user_stays : is_user m ≡ true → not_system m ≡ true
    user_stays e =
        ap (λ (r : Text). not (list_beq r (codes "system"))) (list_beq→eq m.role (codes "user") e)

    go :
        (u : Bool)
        → is_user m ≡ u
        → (k : Bool) → not_system m ≡ k
        → (any is_user ms ≡ true → any is_user (filter not_system ms) ≡ true)
        → (u || any is_user ms) ≡ true
        → any is_user (if k then m ∷ filter not_system ms else filter not_system ms) ≡ true
    go true eu true ek ih h = rw (eu) refl
    go true eu false ek ih h = absurd (cc (sym ek ∙ user_stays eu))
    go false eu true ek ih h = rw (eu) (ih h)
    go false eu false ek ih h = ih h
