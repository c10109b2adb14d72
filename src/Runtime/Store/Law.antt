-- ===== src/Runtime/Store/Law.antt =====
-- The stores of engine/runtime/store.py keep the law of the `TaskStore` protocol.
use conductor_engine.Base.{Assoc, lookup-insert}
use conductor_engine.Interfaces.Task.{TaskRecord}
use conductor_engine.Interfaces.Store.{TaskStore}
use conductor_engine.Runtime.Store.{
  memory_save, memory_get, memory_list, RedisKeys, redis_save, redis_get, redis_list,
}

-- `MemoryTaskStore` as a task store.
unfoldable pub memory_store : TaskStore (Assoc TaskRecord)
unfolding memory_save memory_get memory_list
memory_store = record {
  save = memory_save;
  get = memory_get;
  list_tasks = memory_list;
  get-save = λ k t tasks. lookup-insert t.task_id k t tasks;
}

-- `RedisTaskStore` as a task store.
unfoldable pub redis_store : TaskStore RedisKeys
unfolding redis_save redis_get
redis_store = record {
  save = redis_save;
  get = redis_get;
  list_tasks = redis_list;
  get-save = λ k t keys. lookup-insert t.task_id k t keys.records;
}
