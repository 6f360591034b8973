-- ===== src/RequestHandler/Server.antt =====
-- tagsrequesthandler.h and tagsrequesthandler.cc: `SingleTableTagsRequestHandler`, which chooses the
-- protocol, and `LocalTagsRequestHandler`, which filters.
use google_gtags.Prelude.{ℕ, Bool, true, false, ◌&&◌, Text, ◌==◌, if◌then◌else◌}
use google_gtags.Prelude.Result.{Result, ok, ◌>>=◌}
use google_gtags.Strutil.{peek, has_prefix_string}
use google_gtags.Filename
use google_gtags.TagsTable.{TagsTable, TagsResult, new_table, unload_files_in_dir}
use google_gtags.TagsTable.Load.{update_tag_file}
use google_gtags.RequestHandler.{Environment, reload_file, with_contents}
use google_gtags.RequestHandler.Opcode.{execute_opcode}
use google_gtags.RequestHandler.Protocol.{SexpHandler, Reply, execute_sexp}

-- `DefaultTagsResultPredicate`
abbrev pub any_result : TagsResult → Bool
any_result r = true

-- `LanguageClientTagsResultPredicate`: the language begins with the one asked for, and the path with that
-- of the client.
unfoldable pub is_for_client : Text → Text → TagsResult → Bool
is_for_client language client_path r =
    has_prefix_string r.language language && has_prefix_string (Filename.str r.filename) client_path

-- The constructor of `SingleTableTagsRequestHandler`.
unfoldable pub new_single_table : Environment → Text → ℕ → Result (SexpHandler × TagsTable)
new_single_table env tags_file now = do
  t ← reload_file env tags_file (new_table env.enable_fileindex)
  ok (record { server_start_time = now; sequence_number = 0 }, t)

-- `Execute` of `SingleTableTagsRequestHandler`.
unfoldable pub execute_single : Environment → Text → SexpHandler → TagsTable → Result Reply
execute_single env command h t =
    if peek command == b'(' then execute_sexp env any_result command h t else (do
      r ← execute_opcode env command t
      ok (record { output = r.0; profile = r.1; handler = h; table = r.2 }))

-- `LocalTagsRequestHandler`: the mutex makes each call one step.
unfoldable pub execute_local :
    Environment → Text → Text → Text → SexpHandler → TagsTable → Result Reply
unfolding is_for_client
execute_local env command language client_path h t =
    execute_sexp env (is_for_client language client_path) command h t

-- `Update`, which never gunzips.
unfoldable pub update_local : Environment → Text → TagsTable → Result TagsTable
update_local env filename t =
    with_contents (env.contents false filename) (λ s. update_tag_file env.config s t)

-- `UnloadFilesInDir`
unfoldable pub unload_local : Text → TagsTable → Result TagsTable
unload_local dirname t = unload_files_in_dir dirname t
