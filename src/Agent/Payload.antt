-- ===== src/Agent/Payload.antt =====
-- The JSON of what the agent answers, as JSON.stringify writes it into the tables.
use docklane.Prelude.{String, Text, List, [], ◌∷◌, Option}
use mathlib.Core.Option
use docklane.Prelude.Json.{
  Json, Items, Fields, bool, num, neg, str, text, obj, nil, cons, end, field, field?,
}
use docklane.Agent.{ServiceSummary, TaskSummary, NodeSummary, Slot}

abbrev str? : Option String → Option Json
str? = Option.map str

abbrev text? : Option Text → Option Json
text? = Option.map text

unfoldable pub service_json : ServiceSummary → Json
service_json s = obj (
    field "id" (str s.id) (
      field "name" (str s.name) (
        field "version" (num s.version) (
          field "specHash" (str s.spec_hash) (
            field "forceUpdate" (num s.force_update) (
              field? "taskSpecHash" (str? s.task_spec_hash) (
                field? "runtimeSpecHash" (str? s.runtime_spec_hash) (
                  field? "image" (text? s.image) (
                    field "mode" (str s.mode) (
                      field "desiredReplicas" (num s.desired_replicas) (
                        field "runningReplicas" (num s.running_replicas) (
                          field? "updateState" (str? s.update_state) (
                            field? "updateMessage" (str? s.update_message) (
                              field "createdAt" (str s.created_at)
                                (field "updatedAt" (str s.updated_at) end)))))))))))))))

-- `neg n` is -(n + 1).
abbrev integer_json : Slot → Json
integer_json (Slot.from n) = num n
integer_json (Slot.below n) = neg n

unfoldable pub label_fields : List (String × String) → Fields
label_fields [] = end
label_fields ((key, value) ∷ labels) = field key (str value) (label_fields labels)

unfoldable pub strings_json : List String → Items
strings_json [] = nil
strings_json (s ∷ ss) = cons (str s) (strings_json ss)

unfoldable pub task_json : TaskSummary → Json
task_json t = obj (
    field "id" (str t.id) (
      field "serviceId" (str t.service_id) (
        field "specHash" (str t.spec_hash) (
          field "runtimeSpecHash" (str t.runtime_spec_hash) (
            field "slot" (integer_json t.slot) (
              field? "nodeId" (str? t.node_id) (
                field "desiredState" (str t.desired_state) (
                  field "state" (str t.state) (
                    field "forceUpdate" (num t.force_update) (
                      field? "message" (str? t.message) (
                        field? "error" (str? t.error) (
                          field? "containerId" (str? t.container_id) (
                            field? "image" (text? t.image)
                              (field "timestamp" (str t.timestamp) end))))))))))))))

unfoldable pub tasks_json : List TaskSummary → Items
unfolding task_json
tasks_json [] = nil
tasks_json (t ∷ ts) = cons (task_json t) (tasks_json ts)

unfoldable pub node_json : NodeSummary → Json
unfolding label_fields
node_json n = obj (
    field "id" (str n.id) (
      field "version" (num n.version) (
        field "specHash" (str n.spec_hash) (
          field "hostname" (str n.hostname) (
            field "address" (str n.address) (
              field "role" (str n.role) (
                field "availability" (str n.availability) (
                  field "state" (str n.state) (
                    field? "message" (str? n.message) (
                      field "manager" (bool n.manager) (
                        field "leader" (bool n.leader) (
                          field? "reachability" (str? n.reachability) (
                            field? "engineVersion" (str? n.engine_version) (
                              field "nanoCpus" (integer_json n.nano_cpus) (
                                field "memoryBytes" (integer_json n.memory_bytes)
                                  (field "labels" (obj (label_fields n.labels)) end))))))))))))))))
