-- ===== src/Store/Keeps/Checks.antt =====
-- internal/store/runs.go: what CI checks and Artifacts keep.
use buildbee.Base.{refl}
use buildbee.Text.{Text}
use buildbee.Models.Records.{Pipeline, Artifact}
use buildbee.Store.Keeps.{Keeps, found-same, Keeps-bind}
use buildbee.Store.Keeps.Tables.{Keeps-insert_row, Keeps-set_st}
use buildbee.Store.Tables.{
  insert_pipeline, get_pipeline, update_pipeline, insert_artifact, get_artifact, pipeline_key,
  artifact_key,
}

pub Keeps-insert_pipeline : (p : Pipeline) → Keeps (insert_pipeline p)
unfolding insert_pipeline
Keeps-insert_pipeline p = Keeps-insert_row pipeline_key _ _ _ (λ _ _. (refl, refl, refl, refl))

pub Keeps-get_pipeline : (id : Text) → Keeps (get_pipeline id)
unfolding get_pipeline
Keeps-get_pipeline id = record { at = λ w w' r h. found-same _ w w' r h }

pub Keeps-update_pipeline : (p : Pipeline) → Keeps (update_pipeline p)
unfolding update_pipeline
Keeps-update_pipeline p =
    Keeps-bind _ _ (Keeps-get_pipeline p.id) (λ _. Keeps-set_st _ (λ _. (refl, refl, refl, refl)))

pub Keeps-insert_artifact : (a : Artifact) → Keeps (insert_artifact a)
unfolding insert_artifact
Keeps-insert_artifact a = Keeps-insert_row artifact_key _ _ a (λ _ _. (refl, refl, refl, refl))

pub Keeps-get_artifact : (id : Text) → Keeps (get_artifact id)
unfolding get_artifact
Keeps-get_artifact id = record { at = λ w w' r h. found-same _ w w' r h }

pub ruleset check_rules = (
  Keeps-insert_pipeline, Keeps-get_pipeline, Keeps-update_pipeline, Keeps-insert_artifact,
  Keeps-get_artifact,
)
