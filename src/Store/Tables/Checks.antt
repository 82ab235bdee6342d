-- ===== src/Store/Tables/Checks.antt =====
-- internal/store/runs.go: writing CI checks and Artifacts.
use buildbee.Text.{Text}
use buildbee.Models.Records.{Pipeline, Artifact}
use buildbee.Store.{W, found, ◌>>◌}
use buildbee.Store.Rows.{find_row, update_row}
use buildbee.Store.Inserts.{set_st, insert_row}

abbrev pub pipeline_key : Pipeline → Text
pipeline_key p = p.id

abbrev pub artifact_key : Artifact → Text
artifact_key a = a.id

-- InsertPipeline
unfoldable pub insert_pipeline : Pipeline → W (Unit {0})
insert_pipeline p =
    insert_row pipeline_key (λ db. db.pipelines) (λ ps db. record db { pipelines = ps })
      (record p { updated_at = p.created_at })

-- GetPipeline
unfoldable pub get_pipeline : Text → W Pipeline
unfolding find_row
get_pipeline id w = found (find_row pipeline_key id w.st.pipelines) w

abbrev pub pipeline_columns : Pipeline → Pipeline → Pipeline
pipeline_columns p x = record x {
  status = p.status;
  external_url = p.external_url;
  updated_at = p.updated_at;
}

-- UpdatePipeline
unfoldable pub update_pipeline : Pipeline → W (Unit {0})
unfolding update_row
update_pipeline p =
    get_pipeline p.id
    >> set_st (λ db. record db {
      pipelines = update_row pipeline_key p.id (pipeline_columns p) db.pipelines;
    })

-- InsertArtifact
unfoldable pub insert_artifact : Artifact → W (Unit {0})
insert_artifact =
    insert_row artifact_key (λ db. db.artifacts) (λ xs db. record db { artifacts = xs })

-- GetArtifact
unfoldable pub get_artifact : Text → W Artifact
unfolding find_row
get_artifact id w = found (find_row artifact_key id w.st.artifacts) w
