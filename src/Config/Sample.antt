-- ===== src/Config/Sample.antt =====
-- A desired state that validation passes, for tests (packages/config-engine/src/validate.ts).
use aws_architecture.Base.{true, false, String}
use aws_architecture.Base.Json.{Json, bool, num, str, obj, end, field, Fields}

abbrev selection : String → Fields
selection provider = field "enabled" (bool true) (field "provider" (str provider) end)

abbrev backed : String → String → Json
backed provider fallback = obj (
    field "enabled" (bool true)
      (field "provider" (str provider) (field "fallback" (str fallback) end)))

abbrev pub platform : Json
platform = obj (
    field "database" (obj (selection "postgres")) (
      field "cache" (backed "redis" "memory") (
        field "distributed_lock" (backed "redis" "postgres") (
          field "idempotency" (backed "redis" "postgres") (
            field "queue" (backed "bullmq" "sync") (
              field "event_bus" (backed "kafka" "outbox") (
                field "object_storage" (backed "s3" "filesystem") (
                  field "vector_store" (obj (selection "pgvector")) (
                    field "search" (backed "opensearch" "postgres") (
                      field "ai" (backed "bedrock" "disabled") (
                        field "observability"
                          (obj (
                            field "metrics" (bool true)
                              (field "tracing" (bool false) (field "logging" (bool true) end))))
                          end)))))))))))

abbrev pub sample : Json
sample = obj (
    field "platform" platform (
      field "features" (obj (field "rag" (bool true) end))
        (field "limits" (obj (field "uploads" (num 5) end)) end)))
